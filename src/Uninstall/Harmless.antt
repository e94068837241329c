-- ===== src/Uninstall/Harmless.antt =====
-- What `remove` does to the node.
use microstack.Base.{String, ◌==◌, ◌≡◌, refl, Bool, true, false, ◌&&◌, ◌||◌, List, [], ◌∷◌}
use microstack.Machine.{Event, command, prompted, Host, World}
use microstack.Machine.Adds.{Adds, Between, adds_rules, Adds-pure, Adds-then, Adds-bind}
use microstack.Shell.Laws.{Adds-check_output, Adds-call}
use microstack.Question.{boolean, save, load}
use microstack.Question.Ask.{ask}
use microstack.Question.Adds.{Adds-ask, Adds-load, Adds-save, Adds-input_func}
use microstack.Init.Questions.{ask_all, require_root}
use microstack.Uninstall.{bridge_yes, bridge_question, remove_question, remove}

abbrev pub bridge_key : String
bridge_key = "config.cleanup.delete-bridge"

-- A prompt, a look at the user's id, a look at the key of the bridge, a setting of the snap, or
-- the removal of the bridge.
abbrev pub spares : Event → Bool
spares (command (program ∷ verb ∷ [])) = program == "id" && verb == "-u"
spares (command (program ∷ verb ∷ name ∷ [])) =
    (program == "snapctl" && verb == "get" && name == bridge_key)
    || (program == "snapctl" && verb == "set")
    || (program == "ovs-vsctl" && verb == "del-br" && name == "br-ex")
spares (prompted p) = true
spares _ = false

abbrev pub Spares : Event → Type 0
Spares e = spares e ≡ true

module _ (h : Host) where
  Spares-bridge : (interactive : Bool) → Adds Spares (ask h (bridge_question h interactive))
  unfolding bridge_yes
  Spares-bridge interactive = Adds-ask h _ (record {
    loads = Adds-load h boolean _ refl;
    asks = λ prompt. Adds-input_func h interactive prompt (λ s. refl);
    says_yes = λ a. Adds-then _ _ (Adds-call h _ refl) (Adds-pure _);
    says_no = λ a. Adds-pure _;
    follows = λ a. Adds-pure _;
    stores = λ a. Adds-save h boolean _ a (λ s. refl);
  })

  Spares-remove : (interactive : Bool) → Adds Spares (ask h (remove_question h interactive))
  unfolding save load
  Spares-remove interactive = Adds-ask h _ (record {
    loads = Adds-pure _;
    asks = λ prompt. Adds-input_func h interactive prompt (λ s. refl);
    says_yes = λ a. Adds-pure _;
    says_no = λ a. Adds-pure _;
    follows = λ a. Adds-pure _;
    stores = λ a. Adds-pure _;
  })

  -- Whatever its arguments and the user's answers, and whether it returns or raises, `remove` runs
  -- no other commands than `id -u`, the reads and the settings of the snap, and the removal of the
  -- bridge br-ex: it does not remove the snap, although its last question asks so.
  pub remove-Spares :
      (args : List String) (w : World) → Between Spares w.log (remove h args w).1.log
  unfolding remove require_root ask_all
  remove-Spares args w =
      (Adds-then _ _ (Adds-bind _ _ (Adds-check_output h _ refl) (λ uid. search adds_rules))
          (Adds-then _ _ (Spares-bridge _) (Adds-then _ _ (Spares-remove _) (Adds-pure tt)))).from
        w
