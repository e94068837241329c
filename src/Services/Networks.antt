-- ===== src/Services/Networks.antt =====
-- NeutronControlPlane and SecurityRules.
pub mod Rules
use microstack.Base.{String, Bool, List, [], ◌∷◌}
use microstack.Machine.{Host}
use microstack.Machine.Monad.{Action, pure, ◌>>=◌, ◌>>◌}
use microstack.Shell.{check, env_get, enable, disable, restart, nc_wait, sleep}
use microstack.Question.{Answer}
use microstack.Services.{for_each, unless_call, unless_shown, create_user, service_command, manage}
use microstack.Services.Compute.{call_endpoints}

unfoldable pub neutron_yes : Host → Answer → Action (Unit {0})
neutron_yes h answer = do
  unless_shown h "user" "neutron" (create_user h "neutron")
  unless_shown h "service" "network" (do
    check h (service_command "neutron" "\"OpenStack Network\"" "network")
    call_endpoints h "network" ":9696")
  manage h "neutron-db-manage" ("upgrade" ∷ "head" ∷ [])
  enable h "neutron-api"
  enable h "neutron-ovn-metadata-agent"
  control_ip ← env_get "control_ip"
  nc_wait h control_ip "9696"
  sleep h
  unless_shown h "network" "test" (check h ("openstack" ∷ "network" ∷ "create" ∷ "test" ∷ []))
  unless_shown h "subnet" "test-subnet" (
      check h (
        "openstack" ∷ "subnet" ∷ "create" ∷ "--network" ∷ "test" ∷ "--subnet-range"
        ∷ "192.168.222.0/24" ∷ "test-subnet" ∷ []))
  unless_shown h "network" "external" (
      check h (
        "openstack" ∷ "network" ∷ "create" ∷ "--external" ∷ "--provider-physical-network=physnet1"
        ∷ "--provider-network-type=flat" ∷ "external" ∷ []))
  unless_shown h "subnet" "external-subnet" (do
    extcidr ← env_get "extcidr"
    check h (
        "openstack" ∷ "subnet" ∷ "create" ∷ "--network" ∷ "external" ∷ "--subnet-range" ∷ extcidr
        ∷ "--no-dhcp" ∷ "external-subnet" ∷ []))
  unless_shown h "router" "test-router" (do
    check h ("openstack" ∷ "router" ∷ "create" ∷ "test-router" ∷ [])
    check h ("openstack" ∷ "router" ∷ "add" ∷ "subnet" ∷ "test-router" ∷ "test-subnet" ∷ [])
    check h
        ("openstack" ∷ "router" ∷ "set" ∷ "--external-gateway" ∷ "external" ∷ "test-router" ∷ []))

unfoldable pub neutron_no : Host → Answer → Action (Unit {0})
neutron_no h answer = do
  for_each ("ovs-vswitchd" ∷ "ovsdb-server" ∷ "ovn-controller" ∷ "neutron-ovn-metadata-agent" ∷ [])
      (λ service. do enable h service; restart h service)
  for_each ("neutron-api" ∷ "ovn-northd" ∷ "ovn-ovsdb-server-sb" ∷ "ovn-ovsdb-server-nb" ∷ [])
      (disable h)
