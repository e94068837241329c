-- ===== src/Uninstall.antt =====
-- tools/init/init/questions/uninstall.py, and `remove` of tools/init/init/main.py.
pub mod Harmless
use microstack.Base.{String, Bool, true, not, List, [], ◌∷◌, contains}
use microstack.Machine.{Host}
use microstack.Machine.Monad.{Action, pure, ◌>>=◌, ◌>>◌}
use microstack.Shell.{call}
use microstack.Question.{boolean, auto, Answer, Question, base, with_code, skip}
use microstack.Question.Ask.{ask}
use microstack.Init.Questions.{ask_all, require_root}

-- `DeleteBridge.yes`, whose call may fail.
unfoldable pub bridge_yes : Host → Answer → Action (Unit {0})
bridge_yes h answer = do call h ("ovs-vsctl" ∷ "del-br" ∷ "br-ex" ∷ []); pure tt

abbrev pub bridge_question : Host → Bool → Question
bridge_question h interactive =
    with_code
      (base h boolean "Do you wish to delete the ovs bridge? (br-ex)" "config.cleanup.delete-bridge"
        interactive)
      (bridge_yes h) skip skip

-- RemoveMicrostack, whose `yes` writes a line to the log only.
abbrev pub remove_question : Host → Bool → Question
remove_question h interactive =
    with_code
      (base h auto "Do you really wish to remove MicroStack?" "config.cleanup.remove" interactive)
      skip skip skip

-- `remove`, for the arguments of the command.
unfoldable pub remove : Host → List String → Action (Unit {0})
unfolding require_root ask_all
remove h args = do
  require_root h
  let interactive = not (contains args "--auto")
  ask_all h (bridge_question h interactive ∷ remove_question h interactive ∷ [])
