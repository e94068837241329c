-- ===== src/Tests/Questions.antt =====
-- Questions on concrete hosts.
use microstack.Base.{String, ◌≡◌, refl, true, false, lower, strip, [], ◌∷◌}
use microstack.Machine.{Host, World, command, prompted, after_event, invalid_answer}
use microstack.Machine.Monad.{Action, ok, raised, ◌>>=◌}
use microstack.Shell.{check, check_output}
use microstack.Question.{
  boolean, Answer, flag, validate, from_config, to_config, base, with_code, skip, load, save,
  input_func, truthy,
}
use microstack.Question.Ask.{ask, conclude, tries, raw_answer}
use microstack.Question.Rerun.{ask-quiet, ask_again, plain, quiet, settle, load_command, Stores}
use microstack.Question.Refused.{ask-Refused, Refused}
use microstack.Tests.{new_world, calm}

-- A handler that runs a command.
abbrev touch : Host → Answer → Action (Unit {0})
touch h _ = check h ("touch" ∷ [])

abbrev yes_host : Host
yes_host = calm "true" "y"

abbrev maybe_host : Host
maybe_host = calm "" "maybe"

ask-quiet_example :
    ask yes_host (quiet yes_host boolean "Setup?" "config.setup" skip skip skip) new_world
    ≡ settle yes_host
        (quiet yes_host boolean "Setup?" "config.setup" skip skip skip)
        (validate boolean (from_config (strip (yes_host.output [] (load_command "config.setup")))))
        (after_event (command (load_command "config.setup")) new_world)
ask-quiet_example =
    ask-quiet yes_host "Setup?" "config.setup" skip skip skip boolean new_world tt refl

yes-Stores : Stores yes_host "config.setup" (to_config boolean (flag true))
unfolding to_config strip lower
yes-Stores = record { set_succeeds = λ _. refl; get_succeeds = λ _. refl; reads_back = λ _. refl }

abbrev answered_yes : World
answered_yes = (ask yes_host (plain yes_host boolean "Setup?" "config.setup" true) new_world).1

answered_yes_run :
    ask yes_host (plain yes_host boolean "Setup?" "config.setup" true) new_world
    ≡ (ok (flag true), answered_yes)
unfolding ask tries raw_answer input_func validate conclude load save check_output check from_config
    truthy to_config lower strip ◌>>=◌
answered_yes_run = refl

ask_again_example :
    (ask yes_host (plain yes_host boolean "Setup?" "config.setup" false) answered_yes).0
    ≡ ok (flag true)
ask_again_example =
    ask_again yes_host "Setup?" "config.setup" boolean (flag true) new_world answered_yes tt tt
      yes-Stores answered_yes_run

maybe-Refused : Refused maybe_host
unfolding validate lower
maybe-Refused = record { typed = λ _ _. refl; invalid = λ _ _. refl }

ask-Refused_example :
    (p₁ p₂ p₃ : String) × (ask maybe_host
        (with_code
          (base maybe_host boolean "Setup?" "config.setup" true)
          (touch maybe_host)
          skip
          skip)
        new_world
      ≡ (
        raised invalid_answer,
        record {
          log =
              prompted p₃ ∷ prompted p₂ ∷ prompted p₁ ∷ command (load_command "config.setup") ∷ [];
          env = [];
        },
      ))
ask-Refused_example =
    ask-Refused maybe_host "Setup?" "config.setup" (touch maybe_host) skip skip new_world
      maybe-Refused refl
