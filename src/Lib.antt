-- ===== src/Lib.antt =====
-- MicroStack: the tools of a snap that deploys OpenStack on one machine or on a small cluster.
--
-- A node is initialised by a list of questions. Each reads its default from the snap
-- configuration (snapctl), may ask the user, runs the code for the answer, and stores the answer.
-- A control node serves the configuration to compute nodes over HTTPS: add-compute makes a
-- connection string with a credential, the compute node checks and stores its parts, and then
-- asks the service. `launch` makes a virtual machine and waits for it.
--
-- - Base, Json, Machine: numbers, text, dicts, hexadecimal, format strings, JSON documents, the
--   outside world and the monad of the tools. Machine.Adds, Extends, Performs and Returns are
--   relations on actions, each with a rule for every way to build one: the events that it adds,
--   another that raises alike, the events that it has added when it returns, and when it does
--   return.
-- - Shell: tools/init/init/shell.py (check, check_output, call, config_get, config_set, sql,
--   nc_wait, log_wait and the service commands); Addresses has fallback_source_address,
--   default_source_address and default_network, and `set_network_info` of main.py. The check and
--   check_output of tools/launch/launch/main.py run the same commands and are modelled by these.
--   Shell.Snap is the configuration that a history of commands leaves.
-- - Question: tools/init/init/questions/question.py; `validate`, `load` and `save` are
--   `_validate`, `_load` and `_save`, and Question.Ask has `ask`, whose loop is `tries`.
-- - Clustering: tools/init/init/questions/clustering.py; Hostname is `_validate_hostname`,
--   ConnectionString the rest of `_validate` and `after`, and Roles the questions Role,
--   ConnectionString, ControlIp and ComputeIp as they are asked. Node is the question Clustering
--   of questions/__init__.py, and Tls is tools/init/init/cluster_tls.py.
-- - Network: tools/init/init/questions/network.py, and NetworkSettings of questions/__init__.py.
-- - Cluster.Shell, Cluster.Daemon, Cluster.Client, Cluster.AddCompute:
--   tools/cluster/cluster/shell.py, daemon.py, client.py and add_compute.py. Cluster.Joined
--   connects a client to the service of a control node, and Cluster.Admitted follows a connection
--   string from the node that prints it to the node that joins.
-- - Environment: tools/init/init/config.py. The other modules take the one dict that its
--   instances share as the environment of their world.
-- - Init: tools/init/init/main.py. Init has `process_init_args`, Init.Arguments `parse_init_args`
--   and its checks, Init.Questions `requires_sudo`, the list of questions and `init`, which is
--   `init_command` on its command line and `init_with` from the arguments on; Init.Marks follows
--   what each question does to the node's mark `initialized`. Uninstall:
--   tools/init/init/questions/uninstall.py, and `remove` of main.py.
-- - Defaults: snap-overlay/bin/set-default-config.py, with its table in Defaults.Table; Passwords
--   is tools/init/init/credentials.py.
-- - Services: the questions of tools/init/init/questions/__init__.py that set up a service, by
--   their `yes` and `no`. Services.Start has RabbitMq, DatabaseSetup and PostSetup, Compute has
--   PlacementSetup, NovaControlPlane, NovaSpiceConsoleSetup and NovaHypervisor, Storage has
--   CinderSetup, CinderVolumeLVMSetup and GlanceSetup, Networks has NeutronControlPlane and
--   SecurityRules, and Settings the questions on values of the configuration and on the extra
--   services. Synced follows the setup of Nova, Neutron and Glance, and Started that of the queue
--   and of the database on a host where both come up, with the rules of Machine.Returns, and
--   Compute.Flags what NovaHypervisor chooses.
-- - Launch: tools/launch/launch/main.py; Launch.Server has `check_server` and its loop, Launch
--   the key pair, `launch` and `main`.
-- - Rc: the loop that reads microstack.rc, in tools/init/init/questions/__init__.py
--   (ConfigQuestion.after) and in `main` of tools/launch/launch/main.py.
-- - Scripts: tools/microstack/microstack/main.py (Proxy), tools/update_path.py (Paths) and
--   checks/check_systemd.py (Systemd).
-- - Tests: runs on concrete hosts.
--
-- A `Host` is everything outside: the exit status and the output of a command after a history,
-- the user's lines, the files, the ports, the database, the exceptions of a connection, a
-- download or a written file, and json.loads and int of Python. A tool is an `Action`: it takes a
-- `World` (the log of its events, newest first, and its environment) to an outcome and the world
-- after it, so what was done before an exception stays done. Libraries that the code calls are
-- records of functions: `Libraries` (Flask's and Keystone's part of the service), `Network`
-- (urllib3, whose request is logged with its host and the pinned fingerprint), `Codec` and
-- `Issuer` (base64, msgpack, netaddr, secrets, Keystone), `Netifaces` (netifaces, netaddr),
-- `Readers` (Python's int, ipaddress) and `Bus` (D-Bus); the parser of argparse in
-- tools/microstack and the fingerprint of a new certificate are arguments. Logging and printing
-- are left out.
--
-- A loop that waits for the outside runs for `Host.patience` rounds, and raises `still_waiting`
-- where the code would go on. Launch.Polling says how many rounds are enough for the loop of
-- `check_server`. For the waits of Shell, a hypothesis says that what is waited for comes within
-- these rounds. Numbers in a JSON document are natural numbers. `lower` maps ASCII letters; its
-- results are only compared with ASCII words. In a hostname, Python's regular expression is
-- written out, with the four letters outside ASCII that it matches and the newline that `$`
-- allows at the end.
--
-- A list or a dict in a connection string is known by its length only.
--
-- Not modelled: argparse but for the types and defaults of the arguments of init, logging, the
-- environment that a command is given (the wrappers of tools/init pass one of their own, those of
-- tools/cluster the process's), the random choice of a character (a parameter), the building of a
-- certificate (a parameter, by its fingerprint), the snap's hooks and templates, the build files,
-- and the tests.
pub mod Addresses
pub mod Base
pub mod Cluster
pub mod Clustering
pub mod Defaults
pub mod Environment
pub mod Init
pub mod Json
pub mod Launch
pub mod Machine
pub mod Network
pub mod Passwords
pub mod Question
pub mod Rc
pub mod Scripts
pub mod Services
pub mod Shell
pub mod Tests
pub mod Uninstall
