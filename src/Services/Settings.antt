-- ===== src/Services/Settings.antt =====
-- The questions that ask for a value of the configuration, and those on extra services.
use microstack.Base.{String, ◌<>◌, Bool, false, none, [], ◌∷◌}
use microstack.Machine.{Host}
use microstack.Machine.Monad.{Action, pure, ◌>>=◌, ◌>>◌}
use microstack.Shell.{check, env_get, enable, disable}
use microstack.Question.{boolean, string, Answer, Question, base, with_code, skip}
use microstack.Question.Ask.{ask}
use microstack.Network.{env_set}
use microstack.Rc.{load_rc}

-- `ConfigQuestion.after`
unfoldable pub config_after : Host → Answer → Action (Unit {0})
config_after h answer = do check h ("snap-openstack" ∷ "setup" ∷ []); load_rc h

abbrev config_question : Host → String → String → (Answer → Action (Unit {0})) → Question
config_question h text key on_yes =
    with_code (base h string text key false) on_yes skip (config_after h)

abbrev pub dns_servers_question : Host → Question
dns_servers_question h =
    config_question h "Upstream DNS servers to be used by instances (VMs)"
      "config.network.dns-servers" skip

abbrev pub dns_domain_question : Host → Question
dns_domain_question h =
    config_question h "An internal DNS domain to be used for ML2 DNS" "config.network.dns-domain"
      skip

abbrev pub os_password_question : Host → Question
os_password_question h =
    config_question h "Openstack Admin Password" "config.credentials.keystone-password"
      (env_set "keystone_password")

abbrev pub dashboard_question : Host → Question
dashboard_question h =
    config_question h "Dashboard allowed hosts." "config.network.dashboard-allowed-hosts" skip

-- The one service of Filebeat, Telegraf and Nrpe.
unfoldable pub extra_service : String → Action String
extra_service name = do
  instance_name ← env_get "SNAP_INSTANCE_NAME"
  pure (instance_name <> "." <> name)

-- `SimpleServiceQuestion.yes` and `SimpleServiceQuestion.no`
unfoldable pub extra_yes : Host → String → Answer → Action (Unit {0})
unfolding extra_service
extra_yes h name answer = do service ← extra_service name; enable h service

unfoldable pub extra_no : Host → String → Answer → Action (Unit {0})
unfolding extra_service
extra_no h name answer = do service ← extra_service name; disable h service

abbrev simple_question : Host → String → String → Bool → Question
simple_question h text name interactive =
    with_code (base h boolean text ("config.services.extra." <> name) interactive)
      (extra_yes h name) (extra_no h name) skip

abbrev pub filebeat_question : Host → Bool → Question
filebeat_question h = simple_question h "Would you like to enable Filebeat?" "filebeat"

abbrev pub telegraf_question : Host → Bool → Question
telegraf_question h = simple_question h "Would you like to enable Telegraf?" "telegraf"

abbrev pub nrpe_question : Host → Bool → Question
nrpe_question h = simple_question h "Would you like to enable NRPE?" "nrpe"

-- `ExtraServicesQuestion.yes`
unfoldable pub extra_services_yes : Host → Bool → Answer → Action (Unit {0})
extra_services_yes h interactive answer = do
  ask h (filebeat_question h interactive)
  ask h (telegraf_question h interactive)
  ask h (nrpe_question h interactive)
  pure tt

abbrev pub extra_services_question : Host → Bool → Question
extra_services_question h interactive =
    with_code
      (base h boolean "Would you like to setup extra services?" "config.services.extra.enabled"
        interactive)
      (extra_services_yes h interactive) skip skip

-- VmSwappiness and FileHandleLimits, which have no key and are not asked.
abbrev pub swappiness_question : Host → Question
swappiness_question h =
    record (base h boolean "Do you wish to set vm swappiness to 1? (recommended)" "" false) {
      config_key = none;
    }

abbrev pub file_handles_question : Host → Question
file_handles_question h =
    record (base h boolean "Do you wish to increase file handle limits? (recommended)" "" false) {
      config_key = none;
    }
