-- ===== src/Tests/Nodes.antt =====
-- `init` and its questions on concrete hosts.
use microstack.Base.{
  ℕ, arith, String, ◌<>◌, ◌≡◌, refl, true, false, none, some, List, [], ◌∷◌, inr, All, lower, strip,
}
use microstack.Json.{str}
use microstack.Machine.{
  Host, History, World, command, prompted, after_event, invalid_answer, system_exit,
}
use microstack.Machine.Adds.{Between}
use microstack.Machine.Monad.{ok, raised, ◌>>=◌}
use Prim.Native.Char.{Char}
use microstack.Passwords.{generate_password, default_password_length}
use microstack.Passwords.Words.{Chooses}
use microstack.Question.{Answer, text, new_question}
use microstack.Question.Ask.{ask}
use microstack.Clustering.Roles.{role_text}
use microstack.Clustering.Roles.Asked.{IsRole, load_role, save_role, ask-IsRole, ask_role-typed}
use microstack.Clustering.Tls.{generate_selfsigned}
use microstack.Clustering.Tls.Kept.{
  Names, cert_command, key_command, made, generate_selfsigned-made,
}
use microstack.Init.{InitArgs, process_init_args}
use microstack.Init.Configured.{configured, process_init_args-configured}
use microstack.Init.Defaulted.{IsAnswered, fresh, questions-IsAnswered}
use microstack.Init.Guards.{IsUser, id_command, init-IsUser}
use microstack.Init.Marks.{Unmarked}
use microstack.Init.Marks.Early.{start_up, init-start_up}
use microstack.Init.Questions.{is_number, question_list, init}
use microstack.Shell.Snap.{snap}
use microstack.Clustering.Node.{Interaction, clustering_question}
use microstack.Uninstall.{remove}
use microstack.Tests.{new_world, calm}
use microstack.Tests.Clusters.{codec}
use microstack.Tests.Inits.{host, host-Accepts, automatic, both}

abbrev user_host : Host
user_host = calm "1000" ""

user_host-IsUser : IsUser user_host new_world
unfolding strip
user_host-IsUser = record { runs = refl; number = refl; positive = refl }

init-IsUser_example :
    (init user_host codec [] both new_world
      ≡ (raised (system_exit 1), after_event (command id_command) new_world))
    × (remove user_host [] new_world
        ≡ (raised (system_exit 1), after_event (command id_command) new_world))
init-IsUser_example = init-IsUser user_host new_world user_host-IsUser codec [] both []

process_init_args-configured_example :
    (v : World) × (process_init_args host both new_world ≡ (ok true, v))
    × (snap (λ key. none) v.log ≡ configured both (snap (λ key. none) []))
process_init_args-configured_example =
    process_init_args-configured (λ key. none) host both new_world host-Accepts refl refl

-- The first character of a text, each time.
abbrev first : ℕ → String → Char
first i String.[] = "a"
first i (String.◌∷◌ c s) = c

first-Chooses : Chooses first
first-Chooses i String.[] e = cc
first-Chooses i (String.◌∷◌ c s) e = ground arith

abbrev all_interactive : Interaction
all_interactive = record {
  interactive = true;
  role_interactive = true;
  connection_string_interactive = true;
}

questions-IsAnswered_example :
    All
      (IsAnswered
        (fresh "/var/snap" "node1" (λ key. generate_password first default_password_length)))
      (clustering_question host codec (0 ∷ []) all_interactive ∷ question_list host true false)
questions-IsAnswered_example =
    questions-IsAnswered host true false codec (0 ∷ []) all_interactive "/var/snap" "node1"
      (λ key. first) (λ key. first-Chooses)

abbrev typing_host : Host
typing_host = calm "control" "compute"

ask-IsRole_example : IsRole (text "compute")
ask-IsRole_example =
    ask-IsRole typing_host (text "compute") new_world
      (record {
        log =
            command (save_role "compute") ∷ prompted (role_text <> " > ") ∷ command load_role ∷ [];
        env = [];
      })
      (ask_role-typed typing_host "compute" new_world (inr refl) refl refl refl)

abbrev cert_host : Host
cert_host = record (calm "" "") { loads = λ _. some (str "cert.pem") }

cert_host-Names : (args : List String) (log : History) → Names cert_host args log "cert.pem"
cert_host-Names args log = record { prints = refl; loads = refl }

generate_selfsigned-made_example : generate_selfsigned cert_host (0 ∷ []) new_world ≡ (
  ok tt,
  record {
    log =
        made false (0 ∷ []) "cert.pem" "cert.pem" (command key_command ∷ command cert_command ∷ []);
    env = [];
  },
)
generate_selfsigned-made_example =
    generate_selfsigned-made cert_host (0 ∷ []) "cert.pem" "cert.pem" new_world (λ log kvs. refl)
      (λ log. refl) (λ log. refl) (cert_host-Names cert_command [])
      (cert_host-Names key_command (command cert_command ∷ []))

abbrev root_host : Host
root_host = calm "0" ""

abbrev stopped : World
stopped = (start_up root_host codec [] (record automatic { auto = false }) new_world).1

stops :
    start_up root_host codec [] (record automatic { auto = false }) new_world
    ≡ (raised invalid_answer, stopped)
unfolding ◌>>=◌ microstack.Init.Questions.require_root microstack.Shell.check_output strip
    process_init_args microstack.Shell.config_set microstack.Init.Questions.ask_all ask
    microstack.Question.load microstack.Question.Ask.tries microstack.Question.Ask.raw_answer
    microstack.Question.input_func microstack.Question.validate microstack.Question.from_config
    lower
stops = refl

init-start_up_example :
    (init root_host codec [] (record automatic { auto = false }) new_world
      ≡ (raised invalid_answer, stopped))
    × Between Unmarked [] stopped.log
init-start_up_example =
    init-start_up root_host codec [] (record automatic { auto = false }) new_world stopped
      invalid_answer stops
