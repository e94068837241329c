-- ===== src/Services/Start.antt =====
-- RabbitMq, DatabaseSetup and PostSetup.
use microstack.Base.{String, ◌<>◌, List, [], ◌∷◌}
use microstack.Json.{is_str, Json}
use microstack.Machine.{Host}
use microstack.Machine.Monad.{Action, pure, lift, when, ◌>>=◌, ◌>>◌}
use microstack.Shell.{
  check, check_output, config_get, env_get, enable, disable, restart, nc_wait, log_wait, sql,
  to_str,
}
use microstack.Question.{Answer}
use microstack.Cluster.Client.{item}
use microstack.Services.{unless_shown, manage, url_of}

-- `RabbitMq._wait` and `RabbitMq._configure`
unfoldable pub wait_rabbit : Host → Action (Unit {0})
wait_rabbit h = do
  enable h "rabbitmq-server"
  port ← check_output h ("snapctl" ∷ "get" ∷ "config.network.ports.rabbit" ∷ [])
  control_ip ← env_get "control_ip"
  nc_wait h control_ip port
  common ← env_get "SNAP_COMMON"
  log_wait h (common <> "/log/rabbitmq/startup_log") "completed"

unfoldable pub configure_rabbit : Host → Action (Unit {0})
configure_rabbit h = do snap ← env_get "SNAP"; check h ((snap <> "/bin/setup-rabbit") ∷ [])

unfoldable pub rabbit_yes : Host → Answer → Action (Unit {0})
unfolding wait_rabbit configure_rabbit
rabbit_yes h answer = do wait_rabbit h; configure_rabbit h

unfoldable pub rabbit_no : Host → Answer → Action (Unit {0})
rabbit_no h answer = disable h "rabbitmq-server"

-- `DatabaseSetup._wait`
unfoldable pub wait_database : Host → Action (Unit {0})
wait_database h = do
  enable h "mysqld"
  port ← check_output h ("snapctl" ∷ "get" ∷ "config.network.ports.mysql" ∷ [])
  control_ip ← env_get "control_ip"
  nc_wait h control_ip port
  common ← env_get "SNAP_COMMON"
  log_wait h (common <> "/log/mysql/error.log") "mysqld: ready for connections."

-- The users and their databases.
abbrev pub databases : List (String × String)
databases =
    ("neutron", "neutron")
    ∷ ("nova", "nova")
    ∷ ("nova", "nova_api")
    ∷ ("nova", "nova_cell0")
    ∷ ("cinder", "cinder")
    ∷ ("glance", "glance")
    ∷ ("keystone", "keystone")
    ∷ ("placement", "placement")
    ∷ []

-- The body of the loop of `_create_dbs`.
unfoldable pub create_db : Host → Json → String → String → Action (Unit {0})
create_db h db_creds user db = do
  password ← lift (item (user <> "-password") db_creds)
  sql h (
      "CREATE USER IF NOT EXISTS '" <> user <> "'@'%' IDENTIFIED BY '" <> to_str h password <> "';")
  sql h ("CREATE DATABASE IF NOT EXISTS `" <> db <> "`;")
  sql h ("GRANT ALL PRIVILEGES ON " <> db <> ".* TO '" <> user <> "'@'%';")

unfoldable pub create_each : Host → Json → List (String × String) → Action (Unit {0})
unfolding create_db
create_each h db_creds [] = pure tt
create_each h db_creds ((user, db) ∷ rest) = do
  create_db h db_creds user db
  create_each h db_creds rest

-- `_create_dbs`
unfoldable pub create_dbs : Host → Action (Unit {0})
unfolding create_each
create_dbs h = do
  db_creds ← config_get h ("config.credentials" ∷ [])
  create_each h db_creds databases

-- `_bootstrap`
unfoldable pub bootstrap : Host → Action (Unit {0})
bootstrap h = unless_shown h "user" "admin" (do
  url ← url_of "control_ip" ":5000/v3/"
  password ← env_get "keystone_password"
  manage h "keystone-manage" (
      "bootstrap" ∷ "--bootstrap-password" ∷ password ∷ "--bootstrap-admin-url" ∷ url
      ∷ "--bootstrap-internal-url" ∷ url ∷ "--bootstrap-public-url" ∷ url ∷ "--bootstrap-region-id"
      ∷ "microstack" ∷ []))

abbrev pub database_ready : Host → Action (Unit {0})
database_ready h = check h ("snapctl" ∷ "set" ∷ "database.ready=true" ∷ [])

unfoldable pub database_yes : Host → Answer → Action (Unit {0})
unfolding wait_database create_dbs bootstrap
database_yes h answer = do
  wait_database h
  create_dbs h
  database_ready h
  enable h "nginx"
  manage h "keystone-manage"
      ("fernet_setup" ∷ "--keystone-user" ∷ "root" ∷ "--keystone-group" ∷ "root" ∷ [])
  manage h "keystone-manage" ("db_sync" ∷ [])
  enable h "keystone-uwsgi"
  bootstrap h
  unless_shown h "project" "service" (
      check h (
        "openstack" ∷ "project" ∷ "create" ∷ "--domain" ∷ "default" ∷ "--description"
        ∷ "Service Project" ∷ "service" ∷ []))

unfoldable pub database_no : Host → Answer → Action (Unit {0})
database_no h answer = do database_ready h; disable h "mysqld"

-- `PostSetup.yes`
unfoldable pub post_setup_yes : Host → Answer → Action (Unit {0})
post_setup_yes h answer = do
  restart h "libvirtd"
  restart h "virtlogd"
  restart h "nova-compute"
  role ← config_get h ("config.cluster.role" ∷ [])
  when (is_str "control" role) (do enable h "cluster-uwsgi"; enable h "horizon-uwsgi")
  check h ("snapctl" ∷ "set" ∷ "initialized=true" ∷ [])
