-- ===== src/Shell/Laws.antt =====
-- What the wrappers of `Shell` add to the log, and when a loop that polls ends.
use microstack.Base.{
  ℕ, zero, suc, String, ◌<>◌, ◌≡◌, refl, List, [], ◌∷◌, map, any, has_part, readlines, arith, strip,
  Bool-cases, inl, inr, Option-cases,
}
use microstack.Base.Dict.{lookup}
use microstack.Machine.{
  Event, command, connected, read, fetched, slept, History, Host, World, key_error, after_event,
}
use microstack.Machine.Monad.{ok, ◌>>=◌}
use microstack.Machine.Adds.{
  Between, Adds, Between-refl, Between-trans, adds_rules, Adds-or_raise, Adds-bind, Adds-then,
  Adds-raise_if,
}
use microstack.Shell.{
  assign, env_get, popen, check, check_output, call, config_get, config_set, connect_loop, nc_wait,
  log_loop, log_wait, restart, enable, disable, sleep, download,
}

module _ {ℓ} {P : Event → Type ℓ} where
  pub Adds-env_get : (key : String) → Adds P (env_get key)
  unfolding env_get
  Adds-env_get key = record {
    from = λ w. (Adds-or_raise (lookup key w.env) (key_error key)).from w;
  }

  one : (e : Event) (log : History) → P e → Between P log (e ∷ log)
  one e log p = record { new = e ∷ []; eq = refl; each = (p, tt) }

module _ {ℓ} {P : Event → Type ℓ} (h : Host) where
  pub Adds-popen : (args : List String) → P (command args) → Adds P (popen h args)
  unfolding popen
  Adds-popen args p = record { from = λ w. one (command args) w.log p }

  pub Adds-check : (args : List String) → P (command args) → Adds P (check h args)
  unfolding check
  Adds-check args p = search (adds_rules, Adds-popen args p)

  pub Adds-check_output : (args : List String) → P (command args) → Adds P (check_output h args)
  unfolding check_output
  Adds-check_output args p = Adds-bind _ _ (Adds-popen args p) (λ a. search adds_rules)

  pub Adds-call : (args : List String) → P (command args) → Adds P (call h args)
  unfolding call
  Adds-call args p = search (adds_rules, Adds-popen args p)

  pub Adds-config_get :
      (keys : List String)
      → P (command ("snapctl" ∷ "get" ∷ "-t" ∷ keys))
      → Adds P (config_get h keys)
  unfolding config_get
  Adds-config_get [] p = search adds_rules
  Adds-config_get (key ∷ keys) p = search (adds_rules, Adds-check_output _ p)

  pub Adds-config_set :
      (kvs : List (String × String))
      → P (command ("snapctl" ∷ "set" ∷ map assign kvs))
      → Adds P (config_set h kvs)
  unfolding config_set
  Adds-config_set [] p = search adds_rules
  Adds-config_set (kv ∷ kvs) p = Adds-check _ p

  pub Adds-sleep : P slept → Adds P (sleep h)
  unfolding sleep
  Adds-sleep p = record { from = λ w. one slept w.log p }

  pub Adds-download : (url path : String) → P (fetched url path) → Adds P (download h url path)
  unfolding download
  Adds-download url path p = record {
    from = λ w. elim (Option-cases (h.fetch_fails w.log url)) [
      | inl n ↦ rw (n, download) (one (fetched url path) w.log p)
      | inr (e, s) ↦ rw (s, download) (Between-refl w.log)
    ];
  }

  pub Adds-restart :
      (service : String)
      → P (command ("snapctl" ∷ "restart" ∷ ("microstack." <> service) ∷ []))
      → Adds P (restart h service)
  unfolding restart
  Adds-restart service p = Adds-check _ p

  pub Adds-enable :
      (service : String)
      → P (command ("snapctl" ∷ "start" ∷ "--enable" ∷ ("microstack." <> service) ∷ []))
      → Adds P (enable h service)
  unfolding enable
  Adds-enable service p = Adds-check _ p

  pub Adds-disable :
      (service : String)
      → P (command ("snapctl" ∷ "stop" ∷ "--disable" ∷ ("microstack." <> service) ∷ []))
      → Adds P (disable h service)
  unfolding disable
  Adds-disable service p = Adds-check _ p

  connect_loop-Between :
      (rounds : ℕ) (addr port : String) (log : History) (w : World)
      → P (connected addr port)
      → P slept
      → Between P log w.log
      → Between P log (connect_loop h rounds addr port w).1.log
  unfolding connect_loop
  connect_loop-Between zero addr port log w p q b = b
  connect_loop-Between (suc rounds) addr port log w p q b =
      elim (Option-cases (h.dial w.log addr port)) [
        | inr (x, d) ↦ rw (d, connect_loop) b
        | inl d ↦
            rw (d, connect_loop)
              (elim (Bool-cases (h.is_open w.log addr port)) [
                | inl e ↦ rw (e, connect_loop) (Between-trans b (one (connected addr port) w.log p))
                | inr e ↦
                    rw (e, connect_loop)
                      (connect_loop-Between rounds addr port log _ p q (
                        Between-trans b (record {
                          new = slept ∷ connected addr port ∷ [];
                          eq = refl;
                          each = (q, (p, tt));
                        })))
              ])
      ]

  pub Adds-nc_wait :
      (addr port : String) → P (connected addr port) → P slept → Adds P (nc_wait h addr port)
  unfolding nc_wait
  Adds-nc_wait addr port p q = Adds-then _ _ (Adds-raise_if _ _) (record {
    from = λ w. connect_loop-Between h.patience addr port w.log w p q (Between-refl w.log);
  })

  log_loop-Between :
      (rounds : ℕ) (log message : String) (old : History) (w : World)
      → P (read log)
      → P slept
      → Between P old w.log
      → Between P old (log_loop h rounds log message w).1.log
  unfolding log_loop
  log_loop-Between zero log message old w p q b = b
  log_loop-Between (suc rounds) log message old w p q b =
      elim (Option-cases (h.content w.log log)) [
        | inl e ↦ rw (e, log_loop) b
        | inr (text, e) ↦
            rw (e, log_loop)
              (elim (Bool-cases (any (has_part message) (readlines text))) [
                | inl f ↦ rw (f, log_loop) (Between-trans b (one (read log) w.log p))
                | inr f ↦
                    rw (f, log_loop)
                      (log_loop-Between rounds log message old _ p q (
                        Between-trans b
                          (record { new = slept ∷ read log ∷ []; eq = refl; each = (q, (p, tt)) })))
              ])
      ]

  pub Adds-log_wait :
      (log message : String) → P (read log) → P slept → Adds P (log_wait h log message)
  unfolding log_wait
  Adds-log_wait log message p q = record {
    from = λ w. log_loop-Between h.patience log message w.log w p q (Between-refl w.log);
  }

module _ (h : Host) where
  -- `check` returns when the command exits with status 0, and has only run the command.
  pub check-eq-ok :
      (args : List String) (w w' : World)
      → check h args w ≡ (ok tt, w')
      → (h.status w.log args ≡ 0) × (w' ≡ after_event (command args) w)
  unfolding check ◌>>=◌
  check-eq-ok args w w' e = ground arith

  -- Likewise `check_output`, whose value is what the command printed.
  pub check_output-eq-ok :
      (args : List String) (w w' : World) (s : String)
      → check_output h args w ≡ (ok s, w')
      → (h.status w.log args ≡ 0)
        × (s ≡ strip (h.output w.log args))
        × (w' ≡ after_event (command args) w)
  unfolding check_output ◌>>=◌
  check_output-eq-ok args w w' s e = ground arith
