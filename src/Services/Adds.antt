-- ===== src/Services/Adds.antt =====
-- The events of the parts that the questions share: loops, tests, files, the database and the
-- environment.
use microstack.Base.{String, ◌≡◌, refl, List, [], ◌∷◌, Bool-cases, Option-cases, inl, inr}
use microstack.Base.Dict.{Dict}
use microstack.Machine.{Event, command, read, wrote, executed_sql, Host, World}
use microstack.Machine.Monad.{Outcome, ok, raised, Action}
use microstack.Machine.Adds.{Adds, Between-refl, adds_rules, Adds-bind, Adds-then, Adds-pure}
use microstack.Shell.{execute, sql}
use microstack.Shell.Laws.{Adds-call, Adds-env_get, Adds-config_get}
use microstack.Launch.{exists, write_file}
use microstack.Question.{Answer}
use microstack.Network.{env_update, env_set}
use microstack.Rc.{rc_line, rc_lines, read_lines, load_rc}
use microstack.Services.{for_each, unless_call}

module _ {ℓ} {P : Event → Type ℓ} where
  pub Adds-for_each :
      (xs : List String) (f : String → Action (Unit {0}))
      → ((x : String) → Adds P (f x))
      → Adds P (for_each xs f)
  unfolding for_each
  Adds-for_each [] f p = Adds-pure tt
  Adds-for_each (x ∷ xs) f p = Adds-then _ _ (p x) (Adds-for_each xs f p)

  pub Adds-write_file : (h : Host) (path : String) → P (wrote path) → Adds P (write_file h path)
  unfolding write_file
  Adds-write_file h path p = record {
    from = λ w. elim (Option-cases (h.write_fails w.log path)) [
      | inl n ↦ rw (n, write_file) (record { new = wrote path ∷ []; eq = refl; each = (p, tt) })
      | inr (e, s) ↦ rw (s, write_file) (Between-refl w.log)
    ];
  }

  pub Adds-env_update : (values : Dict String) → Adds P (env_update values)
  unfolding env_update
  Adds-env_update values = record { from = λ w. Between-refl w.log }

  pub Adds-env_set : (key : String) (a : Answer) → Adds P (env_set key a)
  unfolding env_set
  Adds-env_set key a = record { from = λ w. Between-refl w.log }

-- Assignments to the environment are not in the log.
rc_lines-log : (lines : List String) (w : World) → (rc_lines lines w).1.log ≡ w.log
unfolding rc_lines
rc_lines-log [] w = refl
rc_lines-log (line ∷ lines) w =
    go (rc_line line w.env) (λ env. rc_lines-log lines (record w { env = env }))
  where
    go :
        (r : Outcome (Dict String))
        → ((env : Dict String) → (rc_lines lines (record w { env = env })).1.log ≡ w.log)
        → (elim r as (λ _. Outcome (Unit {0}) × World) [
          | ok env ↦ rc_lines lines (record w { env = env })
          | raised e ↦ (raised e, w)
        ]).1.log
          ≡ w.log
    go (ok env) k = k env
    go (raised e) k = refl

module _ {ℓ} {P : Event → Type ℓ} (h : Host) where
  pub Adds-unless_call :
      (args : List String) (m : Action (Unit {0}))
      → P (command args)
      → Adds P m
      → Adds P (unless_call h args m)
  unfolding unless_call
  Adds-unless_call args m p q = search (adds_rules, Adds-call {P = P} h args p, q)

  pub Adds-exists : (path : String) → Adds P (exists h path)
  unfolding exists
  Adds-exists path = record {
    from = λ w. elim (Option-cases (h.content w.log path)) [
      | inl e ↦ rw (e, exists) (Between-refl w.log)
      | inr (s, e) ↦ rw (e, exists) (Between-refl w.log)
    ];
  }

  Adds-read_lines : (path : String) → P (read path) → Adds P (read_lines h path)
  unfolding read_lines
  Adds-read_lines path p = record {
    from = λ w. elim (Option-cases (h.content w.log path)) [
      | inl e ↦ rw (e, read_lines) (Between-refl w.log)
      | inr (s, e) ↦ rw (e, read_lines) (record { new = read path ∷ []; eq = refl; each = (p, tt) })
    ];
  }

  Adds-rc_lines : (lines : List String) → Adds P (rc_lines lines)
  Adds-rc_lines lines = record { from = λ w. rw (rc_lines-log lines w) (Between-refl w.log) }

  pub Adds-load_rc : ((path : String) → P (read path)) → Adds P (load_rc h)
  unfolding load_rc
  Adds-load_rc p =
      Adds-bind _ _ (Adds-env_get _)
        (λ common. Adds-bind _ _ (Adds-read_lines _ (p _)) (λ lines. Adds-rc_lines lines))

  Adds-execute : (cmd : String) → P (executed_sql cmd) → Adds P (execute h cmd)
  unfolding execute
  Adds-execute cmd p = record {
    from = λ w. elim (Bool-cases (h.sql_fails w.log cmd)) [
      | inl e ↦ rw e (Between-refl w.log)
      | inr e ↦ rw e (record { new = executed_sql cmd ∷ []; eq = refl; each = (p, tt) })
    ];
  }

  -- `sql` reads the password and runs its statement.
  pub Adds-sql :
      (cmd : String)
      → P (command ("snapctl" ∷ "get" ∷ "-t" ∷ "config.credentials.mysql-root-password" ∷ []))
      → P (executed_sql cmd)
      → Adds P (sql h cmd)
  unfolding sql
  Adds-sql cmd p q =
      Adds-bind _ _ (Adds-env_get _)
        (λ common. Adds-bind _ _ (Adds-config_get h _ p) (λ password. Adds-execute cmd q))
