-- ===== src/Defaults/Table.antt =====
-- snap-overlay/bin/set-default-config.py: `_get_default_config` and `_set_default_config`.
use microstack.Base.{String, ◌<>◌, List, [], ◌∷◌}
use microstack.Machine.{Host}
use microstack.Machine.Monad.{Action}
use microstack.Shell.{config_set}

-- `_get_default_config`, for the value of SNAP_COMMON and the name of the host, with each value as
-- `config_set` writes it.
abbrev pub default_config : String → String → List (String × String)
default_config common fqdn =
    ("config.is-clustered", "False")
    ∷ ("config.cluster.tls-cert-path", common <> "/etc/cluster/tls/cert.pem")
    ∷ ("config.cluster.tls-key-path", common <> "/etc/cluster/tls/key.pem")
    ∷ ("config.cluster.fingerprint", "null")
    ∷ ("config.cluster.hostname", "null")
    ∷ ("config.cluster.credential-id", "null")
    ∷ ("config.cluster.credential-secret", "null")
    ∷ ("config.post-setup", "True")
    ∷ ("config.keystone.region-name", "microstack")
    ∷ ("config.credentials.key-pair", "/home/{USER}/snap/{SNAP_NAME}/common/.ssh/id_microstack")
    ∷ ("config.network.node-fqdn", fqdn)
    ∷ ("config.network.dns-servers", "1.1.1.1")
    ∷ ("config.network.dns-domain", "microstack.example.")
    ∷ ("config.network.ext-gateway", "192.168.0.1")
    ∷ ("config.network.control-ip", "192.168.0.1")
    ∷ ("config.network.compute-ip", "192.168.0.1")
    ∷ ("config.network.ext-cidr", "192.168.0.159/24")
    ∷ ("config.network.security-rules", "True")
    ∷ ("config.network.dashboard-allowed-hosts", "*")
    ∷ ("config.network.ports.dashboard", "80")
    ∷ ("config.network.ports.mysql", "3306")
    ∷ ("config.network.ports.rabbit", "5672")
    ∷ ("config.network.external-bridge-name", "br-ex")
    ∷ ("config.network.physnet-name", "physnet1")
    ∷ ("config.cinder.setup-loop-based-cinder-lvm-backend", "False")
    ∷ ("config.cinder.loop-device-file-size", "32G")
    ∷ ("config.cinder.lvm-backend-volume-group", "cinder-volumes")
    ∷ ("config.host.ip-forwarding", "False")
    ∷ ("config.host.check-qemu", "True")
    ∷ ("config.services.control-plane", "True")
    ∷ ("config.services.hypervisor", "True")
    ∷ ("config.services.spice-console", "True")
    ∷ ("config.cluster.role", "control")
    ∷ ("config.cluster.password", "null")
    ∷ ("config.cleanup.delete-bridge", "True")
    ∷ ("config.cleanup.remove", "True")
    ∷ ("config.logging.custom-config", common <> "/etc/filebeat/filebeat-microstack.yaml")
    ∷ ("config.logging.datatag", "")
    ∷ ("config.logging.host", "localhost:5044")
    ∷ ("config.services.extra.enabled", "False")
    ∷ ("config.services.extra.filebeat", "False")
    ∷ ("config.alerting.custom-config", common <> "/etc/nrpe/nrpe-microstack.cfg")
    ∷ ("config.services.extra.nrpe", "False")
    ∷ ("config.monitoring.ipmi", "")
    ∷ ("config.services.extra.telegraf", "False")
    ∷ ("config.monitoring.custom-config", common <> "/etc/telegraf/telegraf-microstack.conf")
    ∷ ("config.nova.virt-type", "qemu")
    ∷ ("config.nova.cpu-mode", "host-model")
    ∷ ("config.nova.cpu-models", "")
    ∷ []

-- `_set_default_config`
unfoldable pub set_default_config : Host → String → String → Action (Unit {0})
set_default_config h common fqdn = config_set h (default_config common fqdn)
