-- ===== src/Init/Marks.antt =====
-- Which commands mark a node as initialized.
pub mod Controls
pub mod Nodes
pub mod Clusters
pub mod Early
pub mod Marked
use microstack.Base.{
  String, ◌<>◌, ◌==◌, ◌≡◌, refl, Bool, true, false, ◌&&◌, ◌||◌, Option, some, List, [], ◌∷◌, any,
  map, arith,
}
use microstack.Base.Apart.{apart, apart-append}
use microstack.Json.{Json}
use microstack.Machine.{
  Event, command, prompted, connected, read, wrote, executed_sql, fetched, slept, Host,
}
use microstack.Machine.Monad.{Action}
use microstack.Machine.Adds.{Adds, adds_rules}
use microstack.Shell.{
  assign, env_get, check, check_output, call, config_get, config_set, sql, nc_wait, log_wait,
  restart, enable, disable, sleep, download,
}
use microstack.Shell.Laws.{
  Adds-check, Adds-check_output, Adds-call, Adds-config_get, Adds-config_set, Adds-env_get,
  Adds-nc_wait, Adds-log_wait, Adds-restart, Adds-enable, Adds-disable, Adds-sleep, Adds-download,
}
use microstack.Question.{Answer}
use microstack.Services.{for_each, unless_call}
use microstack.Services.Adds.{
  Adds-for_each, Adds-unless_call, Adds-exists, Adds-sql, Adds-env_update, Adds-env_set,
  Adds-load_rc, Adds-write_file,
}

-- `snapctl set … initialized=true …`
abbrev pub marks : Event → Bool
marks (command (program ∷ verb ∷ settings)) =
    program == "snapctl" && verb == "set" && any (λ kv. "initialized=true" == kv) settings
marks _ = false

abbrev pub Unmarked : Event → Type 0
Unmarked e = marks e ≡ false

-- A setting of another key does not mark the node.
pub Unmarked-set :
    (key value : String)
    → apart key "initialized=true" ≡ true
    → Unmarked (command ("snapctl" ∷ "set" ∷ (key <> value) ∷ []))
Unmarked-set key value a = rw (apart-append key "initialized=true" value a)

-- Keys that are not `initialized`.
unfoldable pub other_keys : List (String × String) → Bool
other_keys [] = true
other_keys ((key, value) ∷ kvs) = apart key "initialized=true" && other_keys kvs

unmarked_any :
    (kvs : List (String × String))
    → other_keys kvs ≡ true
    → any (λ kv. "initialized=true" == kv) (map assign kvs) ≡ false
unfolding other_keys
unmarked_any [] e = refl
unmarked_any ((key, value) ∷ kvs) e =
    rw
      (
        apart-append key "initialized=true" ("=" <> value) (ground (arith, e)),
        unmarked_any kvs (ground (arith, e)),
      )
      refl

module _ (h : Host) where
  pub Unmarked-other_keys :
      (kvs : List (String × String)) → other_keys kvs ≡ true → Adds Unmarked (config_set h kvs)
  Unmarked-other_keys kvs e = Adds-config_set h kvs (unmarked_any kvs e)

  pub Unmarked-check : (args : List String) → Unmarked (command args) → Adds Unmarked (check h args)
  Unmarked-check args p = Adds-check h args p

  pub Unmarked-check_output :
      (args : List String) → Unmarked (command args) → Adds Unmarked (check_output h args)
  Unmarked-check_output args p = Adds-check_output h args p

  pub Unmarked-call : (args : List String) → Unmarked (command args) → Adds Unmarked (call h args)
  Unmarked-call args p = Adds-call h args p

  pub Unmarked-config_get : (keys : List String) → Adds Unmarked (config_get h keys)
  Unmarked-config_get keys = Adds-config_get h keys refl

  pub Unmarked-config_set :
      (kvs : List (String × String))
      → Unmarked (command ("snapctl" ∷ "set" ∷ map assign kvs))
      → Adds Unmarked (config_set h kvs)
  Unmarked-config_set kvs p = Adds-config_set h kvs p

  pub Unmarked-unless_call :
      (args : List String) (m : Action (Unit {0}))
      → Unmarked (command args)
      → Adds Unmarked m
      → Adds Unmarked (unless_call h args m)
  Unmarked-unless_call args m p q = Adds-unless_call h args m p q

  pub Unmarked-nc_wait : (addr port : String) → Adds Unmarked (nc_wait h addr port)
  Unmarked-nc_wait addr port = Adds-nc_wait h addr port refl refl

  pub Unmarked-log_wait : (log message : String) → Adds Unmarked (log_wait h log message)
  Unmarked-log_wait log message = Adds-log_wait h log message refl refl

  pub Unmarked-sleep : Adds Unmarked (sleep h)
  Unmarked-sleep = Adds-sleep h refl

  pub Unmarked-download : (url path : String) → Adds Unmarked (download h url path)
  Unmarked-download url path = Adds-download h url path refl

  pub Unmarked-restart : (service : String) → Adds Unmarked (restart h service)
  Unmarked-restart service = Adds-restart h service refl

  pub Unmarked-enable : (service : String) → Adds Unmarked (enable h service)
  Unmarked-enable service = Adds-enable h service refl

  pub Unmarked-disable : (service : String) → Adds Unmarked (disable h service)
  Unmarked-disable service = Adds-disable h service refl

  pub Unmarked-sql : (cmd : String) → Adds Unmarked (sql h cmd)
  Unmarked-sql cmd = Adds-sql h cmd refl refl

pub ruleset unmarked_rules = (
  adds_rules, Adds-env_get, Adds-for_each, Adds-exists, Adds-env_update, Adds-env_set,
  Unmarked-check, Unmarked-check_output, Unmarked-call, Unmarked-config_get, Unmarked-config_set,
  Unmarked-unless_call, Unmarked-nc_wait, Unmarked-log_wait, Unmarked-sleep, Unmarked-download,
  Unmarked-restart, Unmarked-enable, Unmarked-disable, Unmarked-sql,
)
