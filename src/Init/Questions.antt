-- ===== src/Init/Questions.antt =====
-- tools/init/init/main.py: the questions that `init` asks, in their order, and `init` itself.
use microstack.Base.{
  ℕ, String, ◌==◌, Bool, true, false, not, ◌&&◌, ◌||◌, List, [], ◌∷◌, ◌++◌, every, codes, leb,
  ◌==ℕ◌, Option, if◌then◌else◌,
}
use microstack.Machine.{Host, value_error, system_exit}
use microstack.Machine.Monad.{Action, pure, lift, raise_if, branch, ◌>>=◌, ◌>>◌}
use microstack.Shell.{check_output, config_set}
use microstack.Question.{boolean, auto, Answer, flag, Question, base, with_code, skip}
use microstack.Question.Ask.{ask}
use microstack.Clustering.ConnectionString.{Codec}
use microstack.Clustering.Node.{Interaction, clustering_yes, clustering_question}
use microstack.Network.{network_question}
use microstack.Services.Settings.{
  dns_servers_question, dns_domain_question, os_password_question, dashboard_question,
  extra_services_question,
}
use microstack.Services.Start.{rabbit_yes, rabbit_no, database_yes, database_no, post_setup_yes}
use microstack.Services.Compute.{
  placement_yes, placement_no, nova_yes, nova_no, spice_yes, spice_no,
}
use microstack.Services.Compute.Virtualization.{hypervisor_yes, hypervisor_no}
use microstack.Services.Storage.{cinder_yes, cinder_no, lvm_yes, lvm_no, glance_yes, glance_no}
use microstack.Services.Networks.{neutron_yes, neutron_no}
use microstack.Services.Networks.Rules.{security_yes}
use microstack.Addresses.{Netifaces}
use microstack.Init.{InitArgs, is_given, process_init_args}
use microstack.Init.Arguments.{Readers, Line, parse_init_args}

-- A question with no text and no user, about a service.
abbrev service_question :
    Host → String → (Answer → Action (Unit {0})) → (Answer → Action (Unit {0})) → Question
service_question h key on_yes on_no =
    with_code (base h boolean "(required)" key false) on_yes on_no skip

abbrev control_plane : String
control_plane = "config.services.control-plane"

-- The questions on the services.
abbrev pub rabbit_question : Host → Question
rabbit_question h = service_question h control_plane (rabbit_yes h) (rabbit_no h)

abbrev pub database_question : Host → Question
database_question h = service_question h control_plane (database_yes h) (database_no h)

abbrev pub placement_question : Host → Question
placement_question h = service_question h control_plane (placement_yes h) (placement_no h)

abbrev pub nova_question : Host → Question
nova_question h = service_question h control_plane (nova_yes h) (nova_no h)

abbrev pub hypervisor_question : Host → Question
hypervisor_question h =
    service_question h "config.services.hypervisor" (hypervisor_yes h) (hypervisor_no h)

abbrev pub spice_question : Host → Question
spice_question h = service_question h "config.services.spice-console" (spice_yes h) (spice_no h)

abbrev pub neutron_question : Host → Question
neutron_question h = service_question h control_plane (neutron_yes h) (neutron_no h)

abbrev pub glance_question : Host → Question
glance_question h = service_question h control_plane (glance_yes h) (glance_no h)

abbrev pub security_question : Host → Question
security_question h = service_question h "config.network.security-rules" (security_yes h) skip

abbrev pub cinder_question : Host → Question
cinder_question h = service_question h control_plane (cinder_yes h) (cinder_no h)

abbrev pub lvm_question : Host → Bool → Question
lvm_question h interactive =
    with_code
      (base h boolean
        "(experimental) Would you like to setup a loop device-backed LVM volume backend for Cinder?"
        "config.cinder.setup-loop-based-cinder-lvm-backend" interactive)
      (lvm_yes h) (lvm_no h) skip

abbrev pub post_question : Host → Question
post_question h =
    with_code (base h auto "(required)" "config.post-setup" false) (post_setup_yes h) skip skip

-- The questions before PostSetup, of a run with `--auto` or without, and with the LVM backend
-- asked for by an argument or not.
abbrev pub earlier_questions : Host → Bool → Bool → List Question
earlier_questions h is_auto lvm =
    dns_servers_question h
    ∷ dns_domain_question h
    ∷ network_question h
    ∷ os_password_question h
    ∷ dashboard_question h
    ∷ rabbit_question h
    ∷ database_question h
    ∷ placement_question h
    ∷ nova_question h
    ∷ hypervisor_question h
    ∷ spice_question h
    ∷ neutron_question h
    ∷ glance_question h
    ∷ security_question h
    ∷ cinder_question h
    ∷ lvm_question h (not is_auto && not lvm)
    ∷ []

-- `question_list`
abbrev pub question_list : Host → Bool → Bool → List Question
question_list h is_auto lvm =
    earlier_questions h is_auto lvm
    ++ (post_question h ∷ extra_services_question h (not is_auto) ∷ [])

-- The loop over the questions. Nothing raises ConfigError, which the loop would catch.
unfoldable pub ask_all : Host → List Question → Action (Unit {0})
ask_all h [] = pure tt
ask_all h (q ∷ qs) = do ask h q; ask_all h qs

-- The text of a number in decimal digits, which is what `id -u` prints.
abbrev pub is_number : String → Bool
is_number s = not (s == "") && every (λ c. leb 48 c && leb c 57) (codes s)

-- `requires_sudo`, before the function that it wraps.
unfoldable pub require_root : Host → Action (Unit {0})
require_root h = do
  uid ← check_output h ("id" ∷ "-u" ∷ [])
  raise_if (not (is_number uid)) (value_error "int")
  raise_if (not (every (λ c. c ==ℕ 48) (codes uid))) (system_exit 1)

-- The attributes that the arguments leave to the question Clustering.
abbrev pub interaction : InitArgs → Interaction
interaction a = record {
  interactive = not a.auto;
  role_interactive = not (if_given a.connection_string a.compute (a.control || a.compute));
  connection_string_interactive = not (is_given a.connection_string);
}
  where
    if_given : Option String → Bool → Bool → Bool
    if_given s x y = if is_given s then x else y

-- A node that is given a connection string joins the cluster before it is asked anything.
unfoldable pub join_first : Host → Codec → List ℕ → InitArgs → Action (Unit {0})
join_first h c fingerprint a = do
  raise_if a.control (value_error "Joining additional control nodes is not supported.")
  config_set h (("config.is-clustered", "True") ∷ [])
  clustering_yes h c fingerprint (interaction a) (flag true)

-- `init`, from the arguments on.
unfoldable pub init_with : Host → Codec → List ℕ → InitArgs → Action (Unit {0})
unfolding join_first ask_all
init_with h c fingerprint a = do
  is_auto ← process_init_args h a
  branch (is_given a.connection_string) (join_first h c fingerprint a)
      (ask_all h (clustering_question h c fingerprint (interaction a) ∷ []))
  ask_all h (question_list h is_auto a.setup_loop_based_cinder_lvm_backend)

-- `init`, on the arguments that are read once the user is known to be root.
unfoldable pub init : Host → Codec → List ℕ → InitArgs → Action (Unit {0})
unfolding require_root init_with
init h c fingerprint a = do require_root h; init_with h c fingerprint a

-- The command `init`, on its command line.
unfoldable pub init_command : Readers → Netifaces → Line → Host → Codec → List ℕ → Action (Unit {0})
unfolding require_root init_with
init_command r n line h c fingerprint = do
  require_root h
  a ← lift (parse_init_args r n line)
  init_with h c fingerprint a
