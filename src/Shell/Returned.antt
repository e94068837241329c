-- ===== src/Shell/Returned.antt =====
-- When the wrappers of `Shell` return.
use microstack.Base.{ℕ, ◌<◌, String, ◌<>◌, ◌≡◌, refl, false, some, List, [], ◌∷◌, strip}
use microstack.Base.Dict.{Dict, lookup}
use microstack.Json.{Json}
use microstack.Machine.{History, Host, command, executed_sql, after_event}
use microstack.Machine.Monad.{◌>>=◌, or_raise}
use microstack.Machine.Returns.{Returns, Any, Returns-at}
use microstack.Shell.{
  env_get, check, check_output, call, config_get, sql, execute, nc_wait, log_wait, enable,
}
use microstack.Shell.Waits.{OpensAfter, nc_wait-OpensAfter}
use microstack.Shell.Lines.{AppearsAfter, log_wait-AppearsAfter}

-- A command that succeeds, whatever was done before.
abbrev pub Succeeds : Host → List String → Type 0
Succeeds h args = (log : History) → h.status log args ≡ 0

abbrev pub get_command : String → List String
get_command key = "snapctl" ∷ "get" ∷ "-t" ∷ key ∷ []

-- `snapctl get` gives this value for a key, whatever was done before.
pub record Gives (h : Host) (key : String) (value : Json) : Type 0 where
  pub reads : Succeeds h (get_command key)
  pub loads : (log : History) → h.loads (strip (h.output log (get_command key))) ≡ some value

module _ {env : Dict String} where
  pub Returns-env_get :
      (key value : String)
      → lookup key env ≡ some value
      → Returns env (λ s. s ≡ value) (env_get key)
  unfolding env_get or_raise
  Returns-env_get key value p = record { from = λ w e. (value, w, rw (e, p) refl, refl, e) }

module _ {env : Dict String} (h : Host) where
  pub Returns-check : (args : List String) → Succeeds h args → Returns env Any (check h args)
  unfolding check ◌>>=◌
  Returns-check args s = record {
    from = λ w e. (tt, after_event (command args) w, rw (s w.log) refl, tt, e);
  }

  -- A command that always prints the same text.
  pub Returns-printed :
      (args : List String) (text : String)
      → Succeeds h args
      → ((log : History) → strip (h.output log args) ≡ text)
      → Returns env (λ s. s ≡ text) (check_output h args)
  unfolding check_output ◌>>=◌
  Returns-printed args text s p = record {
    from = λ w e.
        (strip (h.output w.log args), after_event (command args) w, rw (s w.log) refl, p w.log, e);
  }

  pub Returns-enable :
      (service : String)
      → Succeeds h ("snapctl" ∷ "start" ∷ "--enable" ∷ ("microstack." <> service) ∷ [])
      → Returns env Any (enable h service)
  unfolding enable
  Returns-enable service s = Returns-check _ s

  pub Returns-config_get :
      (key : String) (value : Json)
      → Gives h key value
      → Returns env (λ j. j ≡ value) (config_get h (key ∷ []))
  unfolding config_get check_output ◌>>=◌
  Returns-config_get key value g = record {
    from = λ w e. (
      value,
      after_event (command (get_command key)) w,
      rw (g.reads w.log, g.loads w.log) refl,
      refl,
      e,
    );
  }

  Returns-execute :
      (cmd : String)
      → ((log : History) → h.sql_fails log cmd ≡ false)
      → Returns env Any (execute h cmd)
  unfolding execute
  Returns-execute cmd s = record {
    from = λ w e. (tt, after_event (executed_sql cmd) w, rw (s w.log) refl, tt, e);
  }

  pub Returns-sql :
      (cmd common : String) (password : Json)
      → lookup "SNAP_COMMON" env ≡ some common
      → Gives h "config.credentials.mysql-root-password" password
      → ((log : History) → h.sql_fails log cmd ≡ false)
      → Returns env Any (sql h cmd)
  unfolding sql
  Returns-sql cmd common password c g s =
      Returns-at common _ _ (Returns-env_get _ common c)
        (Returns-at password _ _ (Returns-config_get _ password g) (Returns-execute cmd s))

  pub Returns-nc_wait :
      (addr port : String)
      → ((log : History) → (n : ℕ) × (n < h.patience) × OpensAfter h addr port n log)
      → Returns env Any (nc_wait h addr port)
  Returns-nc_wait addr port o = record {
    from = λ w e. let (n, l, p) = o w.log in (tt, _, nc_wait-OpensAfter h addr port n w l p, tt, e);
  }

  pub Returns-log_wait :
      (log message : String)
      → ((old : History) → (n : ℕ) × (n < h.patience) × AppearsAfter h log message n old)
      → Returns env Any (log_wait h log message)
  Returns-log_wait log message o = record {
    from = λ w e.
        let (n, l, p) = o w.log in (tt, _, log_wait-AppearsAfter h log message n w l p, tt, e);
  }

  pub Returns-call : (args : List String) → Returns env Any (call h args)
  unfolding call ◌>>=◌
  Returns-call args = record { from = λ w e. (_, _, refl, tt, e) }
