-- ===== src/Clustering/Node.antt =====
-- tools/init/init/questions/__init__.py: the question Clustering, which makes a node a control
-- node or a compute node.
use microstack.Base.{ℕ, Bool, ◌&&◌, List, [], ◌∷◌}
use microstack.Json.{is_str}
use microstack.Machine.{Host}
use microstack.Machine.Monad.{Action, when, ◌>>=◌, ◌>>◌}
use microstack.Shell.{check, check_output, config_get, config_set, disable}
use microstack.Question.{boolean, Answer, Question, base, with_code, skip}
use microstack.Question.Ask.{ask}
use microstack.Clustering.ConnectionString.{Codec}
use microstack.Clustering.Roles.{
  role_key, role_question, ask_connection, ask_control_ip, ask_compute_ip,
}
use microstack.Clustering.Tls.{generate_selfsigned}

-- The attributes of the question that `init` sets.
pub record Interaction : Type 0 where
  pub interactive : Bool
  pub role_interactive : Bool
  pub connection_string_interactive : Bool

-- What the role leads to.
unfoldable pub setup_role : Host → List ℕ → Action (Unit {0})
setup_role h fingerprint = do
  role ← config_get h (role_key ∷ [])
  when (is_str "compute" role) (do
    check_output h ("microstack_join" ∷ [])
    config_set h
        (("config.services.control-plane", "false") ∷ ("config.services.hypervisor", "true") ∷ []))
  when (is_str "control" role) (do
    config_set h
        (("config.services.control-plane", "true") ∷ ("config.services.hypervisor", "true") ∷ [])
    generate_selfsigned h fingerprint)

-- `yes`
unfoldable pub clustering_yes : Host → Codec → List ℕ → Interaction → Answer → Action (Unit {0})
unfolding setup_role
clustering_yes h c fingerprint i answer = do
  ask h (role_question h (i.interactive && i.role_interactive))
  ask_control_ip h i.interactive
  ask_compute_ip h i.interactive
  ask_connection h c (i.interactive && i.connection_string_interactive)
  setup_role h fingerprint
  check h ("snap-openstack" ∷ "setup" ∷ [])

unfoldable pub clustering_no : Host → Answer → Action (Unit {0})
clustering_no h answer = disable h "cluster-uwsgi"

abbrev pub clustering_question : Host → Codec → List ℕ → Interaction → Question
clustering_question h c fingerprint i =
    with_code
      (base h boolean "Would you like to configure clustering?" "config.is-clustered" i.interactive)
      (clustering_yes h c fingerprint i) (clustering_no h) skip
