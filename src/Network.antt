-- ===== src/Network.antt =====
-- tools/init/init/questions/network.py, and NetworkSettings of
-- tools/init/init/questions/__init__.py.
use microstack.Base.{String, ◌<>◌, ◌==◌, Bool, none, [], ◌∷◌}
use microstack.Base.Dict.{Dict, update, insert}
use microstack.Json.{truthy}
use microstack.Machine.{Host, exception}
use microstack.Machine.Monad.{ok, Action, pure, raise, lift, when, branch, ◌>>=◌, ◌>>◌}
use microstack.Shell.{check, check_output, config_get, config_set, env_get, enable, to_str}
use microstack.Question.{boolean, string, auto, Answer, Question, base, with_code, skip}
use microstack.Question.Ask.{ask}
use microstack.Cluster.Client.{item}
use microstack.Clustering.Roles.{control_ip_key, compute_ip_key}

-- `_env.update(values)`
unfoldable pub env_update : Dict String → Action (Unit {0})
unfolding update
env_update values w = (ok tt, record w { env = update values w.env })

-- `ExtGateway.yes` on a node that is no part of a cluster, and on one that is.
unfoldable pub gateway_alone : Host → Answer → Action (Unit {0})
unfolding env_update
gateway_alone h answer = do
  let text = microstack.Question.to_str answer
  config_set h ((control_ip_key, text) ∷ (compute_ip_key, text) ∷ [])
  env_update ((control_ip_key, text) ∷ (compute_ip_key, text) ∷ [])

unfoldable pub gateway_clustered : Host → Action (Unit {0})
unfolding env_update
gateway_clustered h = do
  ip_dict ← config_get h (control_ip_key ∷ compute_ip_key ∷ [])
  control_ip ← lift (item control_ip_key ip_dict)
  compute_ip ← lift (item compute_ip_key ip_dict)
  env_update (("control_ip", to_str h control_ip) ∷ ("compute_ip", to_str h compute_ip) ∷ [])

unfoldable pub gateway_yes : Host → Answer → Action (Unit {0})
unfolding gateway_alone gateway_clustered
gateway_yes h answer = do
  clustered ← config_get h ("config.is-clustered" ∷ [])
  branch (truthy clustered) (gateway_clustered h) (gateway_alone h answer)

abbrev pub gateway_question : Host → Question
gateway_question h =
    with_code (base h string "External Gateway" "config.network.ext-gateway" Bool.false)
      (gateway_yes h) skip skip

-- `_env[key] = answer`, for an answer that is a text.
unfoldable pub env_set : String → Answer → Action (Unit {0})
unfolding insert
env_set key answer w =
    (ok tt, record w { env = insert key (microstack.Question.to_str answer) w.env })

abbrev pub cidr_question : Host → Question
cidr_question h =
    with_code (base h string "External Ip Range" "config.network.ext-cidr" Bool.false)
      (env_set "extcidr") skip skip

unfoldable pub forwarding_yes : Host → Answer → Action (Unit {0})
forwarding_yes h answer = check h ("sysctl" ∷ "net.ipv4.ip_forward=1" ∷ [])

abbrev pub forwarding_question : Host → Question
forwarding_question h =
    with_code
      (base h boolean "Do you wish to setup ip forwarding? (recommended)"
        "config.host.ip-forwarding" Bool.false)
      (forwarding_yes h) skip skip

-- `check_output('ovs-vsctl', 'set', 'open', '.', …)`
unfoldable pub set_open : Host → String → Action String
set_open h value = check_output h ("ovs-vsctl" ∷ "set" ∷ "open" ∷ "." ∷ value ∷ [])

-- The connections to the databases of OVN.
pub record Connections : Type 0 where
  pub nb : String
  pub sb : String

unfoldable pub control_connections : Host → String → Action Connections
unfolding set_open
control_connections h control_ip = do
  common ← env_get "SNAP_COMMON"
  set_open h ("external-ids:ovn-encap-ip=" <> control_ip)
  pure (record {
    nb = "unix:" <> common <> "/run/ovn/ovnnb_db.sock";
    sb = "unix:" <> common <> "/run/ovn/ovnsb_db.sock";
  })

unfoldable pub compute_connections : Host → String → Action Connections
unfolding set_open
compute_connections h control_ip = do
  compute_ip ← check_output h ("snapctl" ∷ "get" ∷ compute_ip_key ∷ [])
  set_open h ("external-ids:ovn-encap-ip=" <> compute_ip)
  pure (record { nb = ""; sb = "tcp:" <> control_ip <> ":6642" })

-- The three branches on the role.
unfoldable pub connections : Host → String → String → Action Connections
unfolding control_connections compute_connections
connections h role control_ip = branch (role == "control") (control_connections h control_ip) (
    branch (role == "compute") (compute_connections h control_ip)
      (raise (exception "Unexpected node role")))

-- The services of OVN that every node runs.
unfoldable pub enable_ovn : Host → Action (Unit {0})
enable_ovn h = do
  enable h "ovsdb-server"
  enable h "ovs-vswitchd"
  enable h "ovn-ovsdb-server-sb"
  enable h "ovn-ovsdb-server-nb"

-- The connections are stored.
unfoldable pub store_connections : Host → Connections → Action (Unit {0})
unfolding set_open
store_connections h c = do
  set_open h "external-ids:ovn-encap-type=geneve"
  check_output h ("snapctl" ∷ "set" ∷ ("config.network.ovn-nb-connection=" <> c.nb) ∷ [])
  check_output h ("snapctl" ∷ "set" ∷ ("config.network.ovn-sb-connection=" <> c.sb) ∷ [])
  set_open h ("external-ids:ovn-remote=" <> c.sb)
  set_open h "external-ids:ovn-cms-options=enable-chassis-as-gw"
  pure tt

-- `NetworkSettings.yes`
unfoldable pub network_yes : Host → Answer → Action (Unit {0})
unfolding enable_ovn connections store_connections
network_yes h answer = do
  role ← check_output h ("snapctl" ∷ "get" ∷ "config.cluster.role" ∷ [])
  enable_ovn h
  ask h (gateway_question h)
  ask h (cidr_question h)
  control_ip ← check_output h ("snapctl" ∷ "get" ∷ control_ip_key ∷ [])
  c ← connections h role control_ip
  store_connections h c
  check h ("setup-br-ex" ∷ [])
  check h ("snap-openstack" ∷ "setup" ∷ [])
  when (role == "control") (do enable h "ovn-northd"; enable h "ovn-controller")
  ask h (forwarding_question h)
  pure tt

abbrev pub network_question : Host → Question
network_question h =
    record (with_code (base h auto "Network settings" "" Bool.false) (network_yes h) skip skip) {
      config_key = none;
    }
