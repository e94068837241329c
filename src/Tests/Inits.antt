-- ===== src/Tests/Inits.antt =====
-- The first steps of a node on concrete hosts.
use microstack.Base.{◌≡◌, refl, true, false, none, some}
use microstack.Json.{Json, obj, str, field, end}
use microstack.Machine.{Host, command, after_event}
use microstack.Machine.Monad.{ok}
use microstack.Init.{InitArgs}
use microstack.Init.Processed.{Accepts}
use microstack.Defaults.{setup_secrets, keys_of, names}
use microstack.Defaults.Kept.{setup_secrets-kept, secrets_command}
use microstack.Tests.{new_world, calm}

abbrev pub host : Host
host = calm "" ""

pub host-Accepts : Accepts host
host-Accepts log kvs = refl

abbrev pub automatic : InitArgs
automatic = record {
  auto = true;
  connection_string = none;
  compute = false;
  control = false;
  setup_loop_based_cinder_lvm_backend = false;
  loop_device_file_size = 32;
  default_source_ip = some "10.20.20.1";
}

abbrev pub both : InitArgs
both = record automatic { compute = true; control = true }

abbrev secret_document : Json
secret_document = obj (
    field "mysql-root-password" (str "a") (
      field "rabbitmq-password" (str "b") (
        field "keystone-password" (str "c") (
          field "nova-password" (str "d") (
            field "cinder-password" (str "e") (
              field "neutron-password" (str "f") (
                field "placement-password" (str "g") (
                  field "glance-password" (str "h")
                    (field "ovn-metadata-proxy-shared-secret" (str "i") end)))))))))

abbrev secret_host : Host
secret_host = record (calm "{}" "") { loads = λ _. some secret_document }

setup_secrets-kept_example :
    setup_secrets secret_host (λ k. k) new_world
    ≡ (ok tt, after_event (command secrets_command) new_world)
setup_secrets-kept_example =
    setup_secrets-kept secret_host (λ k. k) new_world secret_document refl refl
      (unfold keys_of names in refl)
