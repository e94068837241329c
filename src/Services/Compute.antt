-- ===== src/Services/Compute.antt =====
-- PlacementSetup, NovaControlPlane and NovaSpiceConsoleSetup.
pub mod Virtualization
pub mod Flags
use microstack.Base.{String, ◌<>◌, Bool, not, List, [], ◌∷◌, has_part}
use microstack.Machine.{Host}
use microstack.Machine.Monad.{Action, pure, when, ◌>>=◌, ◌>>◌}
use microstack.Shell.{call, check, check_output, env_get, enable, disable, restart, nc_wait, sleep}
use microstack.Question.{Answer}
use microstack.Services.{
  for_each, unless_call, unless_shown, create_user, service_command, endpoint_command, url_of,
  manage,
}

-- The endpoints that are made by `call`, which raises nothing.
unfoldable pub call_endpoints : Host → String → String → Action (Unit {0})
call_endpoints h service rest = for_each ("public" ∷ "internal" ∷ "admin" ∷ []) λ endpoint. do
  url ← url_of "control_ip" rest
  call h (endpoint_command service endpoint url)
  pure tt

unfoldable pub placement_yes : Host → Answer → Action (Unit {0})
unfolding call_endpoints
placement_yes h answer = do
  unless_shown h "user" "placement" (create_user h "placement")
  unless_shown h "service" "placement" (do
    check h (service_command "placement" "\"Placement API\"" "placement")
    call_endpoints h "placement" ":8778")
  manage h "placement-manage" ("db" ∷ "sync" ∷ [])
  enable h "placement-uwsgi"

unfoldable pub placement_no : Host → Answer → Action (Unit {0})
placement_no h answer = disable h "placement-uwsgi"

-- One flavor of `_flavors`.
unfoldable pub flavor : Host → String → String → String → String → String → Action (Unit {0})
flavor h id ram disk vcpus name = unless_shown h "flavor" name (
    check h (
      "openstack" ∷ "flavor" ∷ "create" ∷ "--id" ∷ id ∷ "--ram" ∷ ram ∷ "--disk" ∷ disk ∷ "--vcpus"
      ∷ vcpus ∷ name ∷ []))

unfoldable pub flavors : Host → Action (Unit {0})
unfolding flavor
flavors h = do
  flavor h "1" "512" "1" "1" "m1.tiny"
  flavor h "2" "2048" "20" "1" "m1.small"
  flavor h "3" "4096" "20" "2" "m1.medium"
  flavor h "4" "8192" "20" "4" "m1.large"
  flavor h "5" "16384" "20" "8" "m1.xlarge"

abbrev list_cells : Host → Action String
list_cells h =
    check_output h ("snap-openstack" ∷ "launch" ∷ "nova-manage" ∷ "cell_v2" ∷ "list_cells" ∷ [])

unfoldable pub nova_yes : Host → Answer → Action (Unit {0})
unfolding flavors call_endpoints
nova_yes h answer = do
  unless_shown h "user" "nova" (do
    create_user h "nova"
    check h (
        "openstack" ∷ "role" ∷ "add" ∷ "--project" ∷ "service" ∷ "--user" ∷ "nova" ∷ "reader" ∷ []))
  manage h "nova-manage" ("api_db" ∷ "sync" ∷ [])
  cells ← list_cells h
  when (not (has_part "cell0" cells)) (manage h "nova-manage" ("cell_v2" ∷ "map_cell0" ∷ []))
  cells' ← list_cells h
  when (not (has_part "cell1" cells'))
      (manage h "nova-manage" ("cell_v2" ∷ "create_cell" ∷ "--name=cell1" ∷ "--verbose" ∷ []))
  manage h "nova-manage" ("db" ∷ "sync" ∷ [])
  enable h "nova-api"
  restart h "nova-compute"
  for_each ("nova-api-metadata" ∷ "nova-conductor" ∷ "nova-scheduler" ∷ []) (enable h)
  compute_ip ← env_get "compute_ip"
  nc_wait h compute_ip "8774"
  sleep h
  unless_shown h "service" "compute" (do
    check h (service_command "nova" "\"Openstack Compute\"" "compute")
    call_endpoints h "compute" ":8774/v2.1")
  flavors h

unfoldable pub nova_no : Host → Answer → Action (Unit {0})
nova_no h answer =
    for_each ("nova-api" ∷ "nova-conductor" ∷ "nova-scheduler" ∷ "nova-api-metadata" ∷ [])
      (disable h)

unfoldable pub spice_yes : Host → Answer → Action (Unit {0})
spice_yes h answer = enable h "nova-spicehtml5proxy"

unfoldable pub spice_no : Host → Answer → Action (Unit {0})
spice_no h answer = disable h "nova-spicehtml5proxy"
