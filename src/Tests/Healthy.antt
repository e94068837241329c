-- ===== src/Tests/Healthy.antt =====
-- The setup of the services on a healthy host.
use microstack.Base.{String, ◌==◌, ◌≡◌, refl, arith, some, List, [], ◌∷◌, contains, if◌then◌else◌}
use microstack.Json.{Json, str, obj, Fields, end, field}
use microstack.Machine.{Host, World, exception}
use microstack.Machine.Monad.{ok, raised}
use microstack.Machine.Performs.{Has}
use microstack.Question.{flag}
use microstack.Services.Start.{rabbit_yes, database_yes}
use microstack.Services.Unready.{up_to_databases, database_yes-unready}
use microstack.Shell.Snap.{snap}
use microstack.Base.{ap, none}
use microstack.Services.Prepared.{prepared}
use microstack.Services.Started.{IsHealthy, start-returns}
use microstack.Base.{true, false}
use microstack.Tests.{calm}
use microstack.Tests.Runs.{snap_world, stored}

-- What `snapctl get` prints, by its key.
abbrev printed : List String → String
printed args =
    if contains args "config.credentials"
    then "all"
    else if contains args "config.network.ports.mysql"
    then "3306"
    else if contains args "config.network.ports.rabbit"
    then "5672"
    else "one"

-- No port is open but those of the queue and the database.
abbrev up : Host
up = record (calm "" "") {
  output = λ _ args. printed args;
  is_open = λ _ _ port. contains ("3306" ∷ "5672" ∷ []) port;
  content = λ _ _. some "mysqld: ready for connections. completed";
  loads = λ text. if text == "all" then some (obj stored) else some (str "s3cret");
}

abbrev world : World
world = record snap_world {
  env =
      ("compute_ip", "10.20.20.1")
      ∷ ("extcidr", "10.20.20.1/24")
      ∷ ("keystone_password", "k3ystone")
      ∷ snap_world.env;
}

up-IsHealthy : IsHealthy up world.env
unfolding microstack.Base.Dict.lookup microstack.Json.get microstack.Base.strip
    microstack.Base.readlines microstack.Base.has_part
up-IsHealthy = record {
  ip = "10.20.20.1";
  common = "/var/snap";
  snap = "/snap";
  keystone = "k3ystone";
  root = str "s3cret";
  passwords = stored;
  runs = λ args e log. refl;
  has_ip = refl;
  has_common = refl;
  has_snap = refl;
  has_keystone = refl;
  has_root = record { reads = λ log. refl; loads = λ log. refl };
  has_passwords = record { reads = λ log. refl; loads = λ log. refl };
  each = (
    (_, refl),
    ((_, refl), ((_, refl), ((_, refl), ((_, refl), ((_, refl), ((_, refl), ((_, refl), tt))))))),
  );
  accepts = λ log cmd. refl;
  database_port = "3306";
  queue_port = "5672";
  has_database_port = λ log. refl;
  has_queue_port = λ log. refl;
  database_opens = λ log. (
    0,
    omega arith,
    record {
      reads = refl;
      dials = λ k l. refl;
      closed = λ k l. absurd (omega arith);
      opens = refl;
    },
  );
  queue_opens = λ log. (
    0,
    omega arith,
    record {
      reads = refl;
      dials = λ k l. refl;
      closed = λ k l. absurd (omega arith);
      opens = refl;
    },
  );
  database_up = λ old. (
    0,
    omega arith,
    record { written = λ k l. absurd (omega arith); last = _; has_file = refl; appears = refl },
  );
  queue_up = λ old. (
    0,
    omega arith,
    record { written = λ k l. absurd (omega arith); last = _; has_file = refl; appears = refl },
  );
}

start-returns_example :
    ((v : World) × (rabbit_yes up (flag true) world ≡ (ok tt, v)) × (v.env ≡ world.env))
    × ((v : World) × (database_yes up (flag true) world ≡ (ok tt, v))
        × (v.env ≡ world.env)
        × Has prepared [] v.log)
start-returns_example = start-returns up world.env up-IsHealthy (flag true) world refl

-- A database that takes no statement.
abbrev refusing : Host
refusing = record up { sql_fails = λ _ _. true }

abbrev refused : World
refused = (up_to_databases refusing world).1

refuses :
    (up_to_databases refusing world).0
    ≡ raised (exception "CREATE USER IF NOT EXISTS 'neutron'@'%' IDENTIFIED BY 'n3utron';")
unfolding microstack.Machine.Monad.◌>>=◌ microstack.Services.Start.wait_database
    microstack.Services.Start.create_dbs microstack.Shell.enable microstack.Shell.check_output
    microstack.Shell.env_get microstack.Base.Dict.lookup microstack.Shell.nc_wait
    microstack.Shell.log_wait microstack.Base.readlines microstack.Base.has_part
    microstack.Shell.config_get microstack.Cluster.Client.item microstack.Json.get
    microstack.Shell.sql microstack.Shell.to_str microstack.Base.strip
refuses = refl

database_yes-unready_example :
    (database_yes refusing (flag true) world ≡ (
      raised (exception "CREATE USER IF NOT EXISTS 'neutron'@'%' IDENTIFIED BY 'n3utron';"),
      refused,
    ))
    × (snap (λ key. none) refused.log ≡ snap (λ key. none) [])
database_yes-unready_example =
    database_yes-unready refusing (λ key. none) (flag true) world refused _
      (ap (λ o. (o, refused)) refuses)
