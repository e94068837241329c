-- ===== src/Services/Storage.antt =====
-- CinderSetup, CinderVolumeLVMSetup and GlanceSetup.
use microstack.Base.{String, ◌<>◌, ◌==◌, not, [], ◌∷◌, lower}
use microstack.Machine.{Host}
use microstack.Machine.Monad.{Action, when, ◌>>=◌, ◌>>◌}
use microstack.Shell.{check, check_output, env_get, enable, disable, nc_wait, sleep, download}
use microstack.Question.{Answer, to_str}
use microstack.Launch.{exists}
use microstack.Services.{
  for_each, unless_shown, create_user, service_command, endpoint_command, url_of, manage,
}

-- The body of the two loops of `CinderSetup.yes`.
unfoldable pub cinder_endpoint : Host → String → String → String → Action (Unit {0})
cinder_endpoint h control_ip endpoint version = do
  unless_shown h "service" ("cinder" <> version) (
      check h (
        service_command ("cinder" <> version) ("\"Cinder " <> version <> " API\"")
          ("volume" <> version)))
  listed ← check_output h (
      "openstack"
      ∷ "endpoint"
      ∷ "list"
      ∷ "--service"
      ∷ ("volume" <> version)
      ∷ "--interface"
      ∷ endpoint
      ∷ [])
  when (listed == "") (
      check h (
        endpoint_command ("volume" <> version) endpoint
          ("http://" <> control_ip <> ":8776/" <> version <> "/$(project_id)s")))

unfoldable pub cinder_yes : Host → Answer → Action (Unit {0})
unfolding cinder_endpoint
cinder_yes h answer = do
  unless_shown h "user" "cinder" (create_user h "cinder")
  control_ip ← env_get "control_ip"
  for_each ("public" ∷ "internal" ∷ "admin" ∷ [])
      (λ endpoint. for_each ("v2" ∷ "v3" ∷ []) (cinder_endpoint h control_ip endpoint))
  manage h "cinder-manage" ("db" ∷ "sync" ∷ [])
  enable h "cinder-uwsgi"
  enable h "cinder-scheduler"

unfoldable pub cinder_no : Host → Answer → Action (Unit {0})
cinder_no h answer =
    for_each ("cinder-uwsgi" ∷ "cinder-scheduler" ∷ "cinder-volume" ∷ "cinder-backup" ∷ [])
      (disable h)

unfoldable pub lvm_yes : Host → Answer → Action (Unit {0})
lvm_yes h answer = do
  check h (
      "snapctl"
      ∷ "set"
      ∷ ("config.cinder.setup-loop-based-cinder-lvm-backend=" <> lower (to_str answer))
      ∷ [])
  enable h "setup-lvm-loopdev"
  enable h "cinder-volume"
  enable h "target"
  enable h "iscsid"

unfoldable pub lvm_no : Host → Answer → Action (Unit {0})
lvm_no h answer = do
  check h (
      "snapctl"
      ∷ "set"
      ∷ ("config.cinder.lvm.setup-file-backed-lvm=" <> lower (to_str answer))
      ∷ [])
  disable h "setup-lvm-loopdev"
  disable h "cinder-volume"
  disable h "iscsid"
  disable h "target"

abbrev pub cirros_image : String
cirros_image = "cirros-0.4.0-x86_64-disk.img"

-- `_fetch_cirros`
unfoldable pub fetch_cirros : Host → Action (Unit {0})
fetch_cirros h = unless_shown h "image" "cirros" (do
  common ← env_get "SNAP_COMMON"
  found ← exists h (common <> "/images/" <> cirros_image)
  when (not found) (do
    check h ("mkdir" ∷ "-p" ∷ (common <> "/images") ∷ [])
    download h ("http://download.cirros-cloud.net/0.4.0/" <> cirros_image)
        (common <> "/images/" <> cirros_image))
  check h (
      "openstack"
      ∷ "image"
      ∷ "create"
      ∷ "--file"
      ∷ (common <> "/images/" <> cirros_image)
      ∷ "--public"
      ∷ "--container-format=bare"
      ∷ "--disk-format=qcow2"
      ∷ "cirros"
      ∷ []))

unfoldable pub glance_yes : Host → Answer → Action (Unit {0})
unfolding fetch_cirros
glance_yes h answer = do
  unless_shown h "user" "glance" (create_user h "glance")
  unless_shown h "service" "image" (do
    check h (service_command "glance" "\"OpenStack Image\"" "image")
    for_each ("internal" ∷ "admin" ∷ "public" ∷ []) (λ endpoint. do
      url ← url_of "compute_ip" ":9292"
      check h (endpoint_command "image" endpoint url)))
  manage h "glance-manage" ("db_sync" ∷ [])
  for_each ("glance-api" ∷ "registry" ∷ []) (enable h)
  compute_ip ← env_get "compute_ip"
  nc_wait h compute_ip "9292"
  sleep h
  fetch_cirros h

unfoldable pub glance_no : Host → Answer → Action (Unit {0})
glance_no h answer = do disable h "glance-api"; disable h "registry"
