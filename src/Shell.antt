-- ===== src/Shell.antt =====
-- tools/init/init/shell.py: wrappers around other programs, and the snap configuration.
pub mod Laws
pub mod Ends
pub mod Waits
pub mod Lines
pub mod Snap
pub mod Performed
pub mod Returned
use microstack.Base.{
  ℕ, zero, suc, String, ◌<>◌, ◌==◌, ◌==ℕ◌, Bool, true, false, not, Option, none, some, List, [],
  ◌∷◌, ◌++◌, map, any, strip, has_part, readlines, decimal, if◌then◌else◌,
}
use microstack.Base.Dict.{lookup}
use microstack.Json.{Json, null, bool, num, str, arr, obj}
use microstack.Machine.{
  Event, command, connected, read, executed_sql, fetched, slept, Host, World, after_event,
  called_process_error, key_error, file_not_found_error, json_decode_error, exception, value_error,
  still_waiting,
}
use microstack.Machine.Monad.{Action, ok, raised, pure, raise, raise_if, or_raise, ◌>>=◌, ◌>>◌}

-- `str(value)` of what `json.loads` returned.
unfoldable pub to_str : Host → Json → String
to_str h null = "None"
to_str h (bool true) = "True"
to_str h (bool false) = "False"
to_str h (num n) = decimal n
to_str h (str s) = s
to_str h (arr items) = h.repr (arr items)
to_str h (obj fields) = h.repr (obj fields)

-- `f'{k}={v}'`
abbrev pub assign : String × String → String
assign (k, v) = k <> "=" <> v

-- `_env[key]`, also as a field of `'…{key}…'.format(**_env)`
unfoldable pub env_get : String → Action String
env_get key w = or_raise (lookup key w.env) (key_error key) w

module _ (h : Host) where
  -- A command that runs to its end: its exit status and what it printed.
  unfoldable pub popen : List String → Action (ℕ × String)
  popen args w = (ok (h.status w.log args, h.output w.log args), after_event (command args) w)

  -- `check`; its value is always 0 and no caller reads it.
  unfoldable pub check : List String → Action (Unit {0})
  unfolding popen
  check args = do
    (status, _) ← popen args
    raise_if (not (status ==ℕ 0)) (called_process_error status)

  -- `check_output`
  unfoldable pub check_output : List String → Action String
  unfolding popen
  check_output args = do
    (status, text) ← popen args
    raise_if (not (status ==ℕ 0)) (called_process_error status)
    pure (strip text)

  -- `call`
  unfoldable pub call : List String → Action Bool
  unfolding popen
  call args = do (status, _) ← popen args; pure (status ==ℕ 0)

  -- `config_get(*keys)`
  unfoldable pub config_get : List String → Action Json
  unfolding check_output
  config_get [] = pure null
  config_get (key ∷ keys) = do
    text ← check_output ("snapctl" ∷ "get" ∷ "-t" ∷ key ∷ keys)
    or_raise (h.loads text) (json_decode_error text)

  -- `config_set(**kwargs)`, with each value as `f'{v}'` writes it.
  unfoldable pub config_set : List (String × String) → Action (Unit {0})
  unfolding check
  config_set [] = pure tt
  config_set (kv ∷ kvs) = check ("snapctl" ∷ "set" ∷ map assign (kv ∷ kvs))

  -- The connection of pymysql and `cursor.execute`.
  unfoldable pub execute : String → Action (Unit {0})
  execute cmd w =
      if h.sql_fails w.log cmd
      then (raised (exception cmd), w)
      else (ok tt, after_event (executed_sql cmd) w)

  -- `sql`
  unfoldable pub sql : String → Action (Unit {0})
  unfolding env_get config_get execute
  sql cmd = do
    common ← env_get "SNAP_COMMON"
    password ← config_get ("config.credentials.mysql-root-password" ∷ [])
    execute cmd

  connect_loop : ℕ → String → String → Action (Unit {0})
  connect_loop zero addr port w = (raised still_waiting, w)
  connect_loop (suc rounds) addr port w = elim (h.dial w.log addr port) [
    | some e ↦ (raised e, w)
    | none ↦ elim (h.is_open w.log addr port) [
      | true ↦ (ok tt, after_event (connected addr port) w)
      | false ↦
          connect_loop rounds addr port (after_event slept (after_event (connected addr port) w))
    ]
  ]

  -- `nc_wait`, for as many rounds as the host is patient. `int(port)` is the same in each round.
  unfoldable pub nc_wait : String → String → Action (Unit {0})
  unfolding connect_loop
  nc_wait addr port = do
    raise_if (not (h.reads_int port)) (value_error "int")
    connect_loop h.patience addr port

  log_loop : ℕ → String → String → Action (Unit {0})
  log_loop zero log message w = (raised still_waiting, w)
  log_loop (suc rounds) log message w = elim (h.content w.log log) [
    | none ↦ (raised (file_not_found_error log), w)
    | some text ↦ elim (any (has_part message) (readlines text)) [
      | true ↦ (ok tt, after_event (read log) w)
      | false ↦ log_loop rounds log message (after_event slept (after_event (read log) w))
    ]
  ]

  -- `log_wait`
  unfoldable pub log_wait : String → String → Action (Unit {0})
  unfolding log_loop
  log_wait log message = log_loop h.patience log message

  -- `start`, `restart`, `enable`, `disable`
  unfoldable pub start : String → Action (Unit {0})
  unfolding check
  start service = check ("snapctl" ∷ "start" ∷ ("microstack." <> service) ∷ [])

  unfoldable pub restart : String → Action (Unit {0})
  unfolding check
  restart service = check ("snapctl" ∷ "restart" ∷ ("microstack." <> service) ∷ [])

  unfoldable pub enable : String → Action (Unit {0})
  unfolding check
  enable service = check ("snapctl" ∷ "start" ∷ "--enable" ∷ ("microstack." <> service) ∷ [])

  unfoldable pub disable : String → Action (Unit {0})
  unfolding check
  disable service = check ("snapctl" ∷ "stop" ∷ "--disable" ∷ ("microstack." <> service) ∷ [])

  -- `sleep(seconds)`
  unfoldable pub sleep : Action (Unit {0})
  sleep w = (ok tt, after_event slept w)

  -- `download`
  unfoldable pub download : String → String → Action (Unit {0})
  download url path w = elim (h.fetch_fails w.log url) [
    | some e ↦ (raised e, w)
    | none ↦ (ok tt, after_event (fetched url path) w)
  ]
