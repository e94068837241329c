-- ===== src/Launch.antt =====
-- tools/launch/launch/main.py: launches a virtual machine and waits for it. Its `check` and
-- `check_output` are those of tools/init/init/shell.py, but for the log of the output.
pub mod Server
pub mod Polling
pub mod Final
pub mod Retries
pub mod Launched
use microstack.Base.{
  ℕ, String, ◌<>◌, ◌==◌, Bool, true, false, not, Option, none, some, List, [], ◌∷◌, lower, has_part,
  contains, split, if◌then◌else◌,
}
use microstack.Base.Format.{Formatted, filled, missing, malformed, format}
use microstack.Machine.{Host, World, wrote, after_event, key_error, value_error, system_exit}
use microstack.Machine.Monad.{
  Outcome, Action, ok, raised, pure, raise, lift, branch, when, raise_if, ◌>>=◌, ◌>>◌,
}
use microstack.Shell.{check, check_output}
use microstack.Rc.{load_rc}
use microstack.Base.Dict.{lookup}
use Server.{Args, create_server, check_server}

-- `text.format(**os.environ)`
unfoldable pub format_env : String → Action String
format_env s w = elim (format w.env s) [
  | filled t ↦ (ok t, w)
  | missing key ↦ (raised (key_error key), w)
  | malformed ↦ (raised (value_error "format"), w)
]

-- `os.sep.join(parts[:-1])`
unfoldable pub join_but_last : List String → String
join_but_last [] = ""
join_but_last (part ∷ []) = ""
join_but_last (part ∷ next ∷ []) = part
join_but_last (part ∷ next ∷ more ∷ rest) = part <> "/" <> join_but_last (next ∷ more ∷ rest)

-- `os.path.exists(path)`
unfoldable pub exists : Host → String → Action Bool
exists h path w = elim (h.content w.log path) [ none ↦ (ok false, w) | some _ ↦ (ok true, w) ]

-- `open(path, 'w')` and `file_.write(id_)`
unfoldable pub write_file : Host → String → Action (Unit {0})
write_file h path w = elim (h.write_fails w.log path) [
  | some e ↦ (raised e, w)
  | none ↦ (ok tt, after_event (wrote path) w)
]

unfoldable pub check_keypair : Host → Action String
unfolding format_env exists write_file join_but_last
check_keypair h = do
  text ← check_output h ("snapctl" ∷ "get" ∷ "config.credentials.key-pair" ∷ [])
  key_path ← format_env text
  found ← exists h key_path
  let key_dir = join_but_last (split b'/' key_path)
  branch found (pure key_path) (do
    check h ("mkdir" ∷ "-p" ∷ key_dir ∷ [])
    check h ("chmod" ∷ "700" ∷ key_dir ∷ [])
    id ← check_output h ("openstack" ∷ "keypair" ∷ "create" ∷ "microstack" ∷ [])
    write_file h key_path
    check h ("chmod" ∷ "600" ∷ key_path ∷ [])
    pure key_path)

abbrev pub running : String → Bool
running = contains ("BUILD" ∷ "ACTIVE" ∷ [])

-- The user name that is printed for an image.
unfoldable pub username : String → String
username image =
    if has_part "cirros" (lower image)
    then "cirros"
    else if has_part "ubuntu" (lower image)
    then "ubuntu"
    else if has_part "fedora" (lower image)
    then "fedora"
    else "<username>"

-- What is printed at the end: how to reach the server, and the dashboard.
pub record Report : Type 0 where
  pub status : String
  pub access : String
  pub dashboard : String

abbrev pub floating_ip_command : List String
floating_ip_command =
    "openstack" ∷ "floating" ∷ "ip" ∷ "create" ∷ "-f" ∷ "value" ∷ "-c" ∷ "floating_ip_address"
    ∷ "external" ∷ []

-- `launch`, from the floating ip on.
unfoldable pub publish : Host → Args → String → String → String → Action Report
unfolding username
publish h args key_path status server_id = do
  ip ← check_output h floating_ip_command
  check h ("openstack" ∷ "server" ∷ "add" ∷ "floating" ∷ "ip" ∷ server_id ∷ ip ∷ [])
  gate ← check_output h ("snapctl" ∷ "get" ∷ "config.network.ext-gateway" ∷ [])
  port ← check_output h ("snapctl" ∷ "get" ∷ "config.network.ports.dashboard" ∷ [])
  pure (record {
    status = status;
    access = "ssh -i " <> key_path <> " " <> username args.image <> "@" <> ip;
    dashboard = "http://" <> gate <> ":" <> port;
  })

unfoldable pub launch : Host → String → Args → Action Report
unfolding check_keypair publish
launch h name args = do
  key_path ← branch (args.key == "microstack") (check_keypair h) (pure "/path/to/ssh/key")
  server_id ← create_server h name args
  (status, server_id') ← check_server h name server_id args
  raise_if (not (running status)) (system_exit 1)
  publish h args key_path status server_id'

-- `os.environ.get('SNAP', '')`, and the name that `petname` makes up.
unfoldable pub petname : Host → Action String
petname h w =
    let snap : String = elim (lookup "SNAP" w.env) [ none ↦ "" | some s ↦ s ] in
    check_output h ("petname" ∷ "-d" ∷ (snap <> "/usr/share/petname") ∷ []) w

-- `main`, for the name and the other arguments that were parsed.
unfoldable pub main : Host → Option String → Args → Action Report
unfolding petname launch
main h given args = do name ← chosen given; load_rc h; launch h name args
  where
    chosen : Option String → Action String
    chosen none = petname h
    chosen (some name) = branch (name == "") (petname h) (pure name)
