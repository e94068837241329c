-- ===== src/Cluster/Shell.antt =====
-- tools/cluster/cluster/shell.py: the wrappers that the tools of a cluster have of their own. They
-- run with the environment of the process.
pub mod Adds
use microstack.Base.{String, ◌<>◌, ◌==ℕ◌, not, List, [], ◌∷◌, map, strip}
use microstack.Json.{Json}
use microstack.Machine.{Host, called_process_error, json_decode_error}
use microstack.Machine.Monad.{Action, pure, raise_if, or_raise, ◌>>=◌, ◌>>◌}
use microstack.Shell.{assign, popen, env_get, execute}

-- `'${SNAP_USER_COMMON}/etc/mysql/my.cnf'.format(**os.environ)`: the dollar sign stays.
unfoldable pub defaults_file : Action String
defaults_file = do common ← env_get "SNAP_USER_COMMON"; pure ("$" <> common <> "/etc/mysql/my.cnf")

module _ (h : Host) where
  -- `check_output`
  unfoldable pub check_output : List String → Action String
  unfolding popen
  check_output args = do
    (status, text) ← popen h args
    raise_if (not (status ==ℕ 0)) (called_process_error status)
    pure (strip text)

  -- `check`; no caller reads its value.
  unfoldable pub check : List String → Action (Unit {0})
  unfolding popen
  check args = do
    (status, text) ← popen h args
    raise_if (not (status ==ℕ 0)) (called_process_error status)

  -- `config_get(*keys)`, which runs its command for no keys too.
  unfoldable pub config_get : List String → Action Json
  unfolding check_output
  config_get keys = do
    text ← check_output ("snapctl" ∷ "get" ∷ "-t" ∷ keys)
    or_raise (h.loads text) (json_decode_error text)

  -- `config_set(**kwargs)`, which runs its command for no values too.
  unfoldable pub config_set : List (String × String) → Action (Unit {0})
  unfolding check_output
  config_set kvs = do check_output ("snapctl" ∷ "set" ∷ map assign kvs); pure tt

  -- `sql`
  unfoldable pub sql : String → Action (Unit {0})
  unfolding defaults_file config_get
  sql cmd = do
    path ← defaults_file
    password ← config_get ("config.credentials.mysql-root-password" ∷ [])
    execute h cmd
