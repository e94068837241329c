-- ===== src/Tests/Runs.antt =====
-- Runs that return, and the environment.
use microstack.Base.{
  ℕ, ◌≤◌, String, ◌==◌, ◌≡◌, refl, arith, Bool, true, false, Option, none, some, List, [], ◌∷◌,
  if◌then◌else◌, contains,
}
use microstack.Base.Dict.{Dict}
use microstack.Json.{Json, str, obj, Fields, end, field}
use microstack.Machine.{Host, World, system_exit}
use microstack.Machine.Monad.{ok, raised}
use microstack.Machine.Performs.{Has}
use microstack.Question.{flag}
use microstack.Services.Start.{database_yes}
use microstack.Services.Prepared.{prepared, database_yes-prepared}
use microstack.Environment.{
  Dicts, shell, network, questions, Module, Use, sets, gets, import_all, run_uses,
}
use microstack.Environment.Shared.{run_one, run_uses-run_one}
use microstack.Shell as Init
use microstack.Addresses.{Netifaces}
use microstack.Init.{InitArgs}
use microstack.Init.Arguments.{pos, negsuc, Readers, Line, parse_init_args}
use microstack.Init.Arguments.Checked.{IsAddress, parse_init_args-IsChecked}
use microstack.Tests.{calm}

-- The passwords of the services, and the addresses of the node.
abbrev pub stored : Fields
stored = field "nova-password" (str "n0va") (
    field "neutron-password" (str "n3utron") (
      field "cinder-password" (str "c1nder") (
        field "glance-password" (str "g1ance") (
          field "keystone-password" (str "k3ystone") (
            field "placement-password" (str "p1ace") (
              field "config.network.control-ip" (str "10.20.20.1")
                (field "config.network.compute-ip" (str "10.20.20.1") end)))))))

abbrev pub snap_world : World
snap_world = record {
  log = [];
  env =
      ("SNAP_COMMON", "/var/snap")
      ∷ ("SNAP", "/snap")
      ∷ ("SNAP_INSTANCE_NAME", "microstack")
      ∷ ("control_ip", "10.20.20.1")
      ∷ [];
}

abbrev database_host : Host
database_host = record (calm "3306" "") {
  content = λ _ _. some "mysqld: ready for connections.";
  loads = λ _. some (obj stored);
}

abbrev database_left : World
database_left = (database_yes database_host (flag true) snap_world).1

database_returns : database_yes database_host (flag true) snap_world ≡ (ok tt, database_left)
unfolding database_yes microstack.Machine.Monad.◌>>=◌ microstack.Shell.enable
    microstack.Shell.check_output microstack.Shell.env_get microstack.Base.Dict.lookup
    microstack.Shell.nc_wait microstack.Base.strip microstack.Shell.log_wait
    microstack.Base.readlines microstack.Base.has_part microstack.Shell.config_get
    microstack.Cluster.Client.item microstack.Json.get microstack.Shell.sql
    microstack.Services.unless_call microstack.Shell.call
database_returns = refl

database_yes-prepared_example : Has prepared [] database_left.log
database_yes-prepared_example =
    database_yes-prepared database_host (flag true) snap_world database_left database_returns

-- A node that answers no to every question, on a root shell.
abbrev pub quiet : Host
quiet = record (calm "no" "") {
  output = λ _ args.
      if contains args "-u"
      then "0"
      else if contains args "config.cluster.role"
      then "control"
      else "no";
  content = λ _ _. some "";
  loads = λ _. some (obj stored);
}

-- A process with its own environment, and modules that store and read.
abbrev process : Dicts
process = record { next = 1; at = λ p. ("HOME", "/root") ∷ [] }

abbrev environ : Dict String
environ = ("HOME", "/root") ∷ []

abbrev session : List (Module × Use)
session =
    (network, sets "extcidr" "10.20.20.1/24")
    ∷ (questions, gets "extcidr")
    ∷ (shell, gets "HOME")
    ∷ []

session_reads :
    (run_one session (microstack.Base.Dict.update environ [])).0
    ≡ some "10.20.20.1/24" ∷ some "/root" ∷ []
unfolding run_one microstack.Base.Dict.lookup microstack.Base.Dict.insert
    microstack.Base.Dict.update
session_reads = refl

run_uses-run_one_example :
    let (i, s) = import_all environ process in
    ((run_uses i session s).0 ≡ (run_one session (microstack.Base.Dict.update environ [])).0)
    × ((run_uses i session s).1.at 1 ≡ (run_one session (microstack.Base.Dict.update environ [])).1)
    × ((run_uses i session s).1.at 0 ≡ ("HOME", "/root") ∷ [])
run_uses-run_one_example = run_uses-run_one environ process session 0 (omega arith)

abbrev pub readers : Readers
readers = record {
  int = λ s. if s == "8" then some (pos 8) else if s == "-1" then some (negsuc 0) else none;
  ip_address = λ s. some s;
}

abbrev pub interfaces : Netifaces
interfaces = record {
  gateway = ok ("10.20.20.1", "eth0");
  addr = λ _. ok "10.20.20.5";
  netmask = λ _. ok "255.255.255.0";
  netmask_bits = λ _. ok 24;
}

abbrev pub line : Line
line = record {
  auto = true;
  connection_string = none;
  compute = false;
  control = true;
  setup_loop_based_cinder_lvm_backend = true;
  loop_device_file_size = some "8";
  default_source_ip = none;
}

abbrev pub parsed : InitArgs
parsed = record {
  auto = true;
  connection_string = none;
  compute = false;
  control = true;
  setup_loop_based_cinder_lvm_backend = true;
  loop_device_file_size = 8;
  default_source_ip = some "10.20.20.5";
}

pub line_parses : parse_init_args readers interfaces line ≡ ok parsed
unfolding parse_init_args microstack.Machine.Monad.and_then
    microstack.Addresses.fallback_source_address
line_parses = refl

-- A size below one is refused with status 2.
negative_exits :
    parse_init_args readers interfaces (record line { loop_device_file_size = some "-1" })
    ≡ raised (system_exit 2)
unfolding parse_init_args microstack.Machine.Monad.and_then
    microstack.Addresses.fallback_source_address
negative_exits = refl

parse_init_args-IsChecked_example :
    (1 ≤ 8)
    × IsAddress readers (some "10.20.20.5")
    × (true ≡ true)
    × (true ≡ true)
    × (false ≡ false)
    × (true ≡ true)
    × (◌≡◌ {A = Option String} none none)
parse_init_args-IsChecked_example =
    parse_init_args-IsChecked readers interfaces line parsed line_parses
