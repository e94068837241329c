-- ===== src/Shell/Performed.antt =====
-- The events of the wrappers of `Shell` that return.
use microstack.Machine.Adds.{Adds-raise_if}
use microstack.Machine.Monad.{raise_if}
use microstack.Machine.{connected, slept}
use microstack.Machine.Performs.{Has, Has-trans}
use microstack.Shell.{connect_loop, nc_wait}
use microstack.Base.{
  ℕ, zero, suc, inr, Option-cases, Bool-cases, String, ◌<>◌, ◌≡◌, refl, ap, sym, Bool, true, false,
  if◌then◌else◌, inl, List, [], ◌∷◌,
}
use microstack.Machine.{command, executed_sql, Host, World, exception, after_event}
use microstack.Machine.Monad.{Outcome, ok, raised}
use microstack.Machine.Performs.{Performs, Performs-then, IsAmong}
use microstack.Shell.{check, execute, sql, enable, restart}
use microstack.Shell.Laws.{Adds-env_get, Adds-config_get, check-eq-ok}

module _ (h : Host) where
  pub Performs-check : (args : List String) → Performs (command args ∷ []) (check h args)
  unfolding IsAmong
  Performs-check args = record {
    from = λ w v a e.
        let (s, p) = check-eq-ok h args w v e in
        (command args ∷ [], ap (λ u. u.log) p, inl (refl, tt));
  }

  Performs-execute : (cmd : String) → Performs (executed_sql cmd ∷ []) (execute h cmd)
  unfolding IsAmong execute
  Performs-execute cmd = record {
    from = λ w v a e. (executed_sql cmd ∷ [], go w v a (h.sql_fails w.log cmd) e, inl (refl, tt));
  }
    where
      go :
          (w v : World) (a : Unit {0}) (b : Bool)
          → ◌≡◌ {A = Outcome (Unit {0}) × World}
              (if b then (raised (exception cmd), w) else (ok tt, after_event (executed_sql cmd) w))
              (ok a, v)
          → v.log ≡ executed_sql cmd ∷ w.log
      go w v a true e = absurd (cc)
      go w v a false e = ap (λ r. r.1.log) (sym e)

  pub Performs-sql : (cmd : String) → Performs (executed_sql cmd ∷ []) (sql h cmd)
  unfolding sql
  Performs-sql cmd = Performs-then _ _ _ (Adds-env_get {P = λ _. Unit} _) (λ common.
      Performs-then _ _ _
        (Adds-config_get {P = λ _. Unit} h ("config.credentials.mysql-root-password" ∷ []) tt)
        (λ password. Performs-execute cmd))

  pub Performs-enable :
      (service : String)
      → Performs
          (command ("snapctl" ∷ "start" ∷ "--enable" ∷ ("microstack." <> service) ∷ []) ∷ [])
          (enable h service)
  unfolding enable
  Performs-enable service = Performs-check _

  pub Performs-restart :
      (service : String)
      → Performs
          (command ("snapctl" ∷ "restart" ∷ ("microstack." <> service) ∷ []) ∷ [])
          (restart h service)
  unfolding restart
  Performs-restart service = Performs-check _

  connect_loop-Has :
      (rounds : ℕ) (addr port : String) (w v : World)
      → connect_loop h rounds addr port w ≡ (ok tt, v)
      → Has (connected addr port ∷ []) w.log v.log
  unfolding connect_loop IsAmong
  connect_loop-Has zero addr port w v e = absurd (cc)
  connect_loop-Has (suc rounds) addr port w v e = elim (Option-cases (h.dial w.log addr port)) [
    | inr (x, d) ↦ let e' = rw (d, connect_loop) at e in absurd (cc)
    | inl d ↦ elim (Bool-cases (h.is_open w.log addr port)) [
      | inl o ↦
          let e' = rw (d, o, connect_loop) at e in
          (connected addr port ∷ [], ap (λ r. r.1.log) (sym e'), inl (refl, tt))
      | inr o ↦
          let e' = rw (d, o, connect_loop) at e in
          Has-trans [] (connected addr port ∷ []) (slept ∷ connected addr port ∷ [], refl, tt)
            (connect_loop-Has rounds addr port _ v e')
    ]
  ]

  -- The last connection of a wait that returns is to its port.
  pub Performs-nc_wait :
      (addr port : String) → Performs (connected addr port ∷ []) (nc_wait h addr port)
  unfolding nc_wait raise_if
  Performs-nc_wait addr port =
      Performs-then {P = λ _. Unit} _ _ _ (Adds-raise_if _ _)
        λ _. record { from = λ w v a e. connect_loop-Has h.patience addr port w v e }
