-- ===== src/Question/Refused.antt =====
-- A user whose answers are refused.
use microstack.Base.{ℕ, suc, String, ◌==◌, ◌≡◌, refl, ◌∙◌, true, false, ◌∷◌, strip}
use microstack.Machine.{History, Host, World, command, prompted, after_event, invalid_answer}
use microstack.Machine.Monad.{ok, raised, Action, raise, ◌>>=◌}
use microstack.Shell.{check_output}
use microstack.Question.{
  boolean, Answer, text, truthy, Question, validate, from_config, load, input_func, base, with_code,
}
use microstack.Question.Ask.{ask, tries, raw_answer, first_prompt, next_prompt}
use microstack.Question.Rerun.{load_command}

-- A user whose every line is a text that is neither yes nor no.
pub record Refused (h : Host) : Type 0 where
  pub typed : (log : History) (prompt : String) → (h.answer log prompt == "") ≡ false
  pub invalid :
      (log : History) (prompt : String)
      → validate boolean (text (h.answer log prompt)) ≡ ok (text (h.answer log prompt), false)

module _ (h : Host) (question key : String) (on_yes on_no after : Answer → Action (Unit {0})) where
  abbrev asked : Question
  asked = with_code (base h boolean question key true) on_yes on_no after

  tries-Refused_step :
      (n : ℕ) (default : Answer) (prompt : String) (v : World)
      → Refused h
      → tries h (suc n) asked default prompt v
        ≡ tries h n asked default
            (next_prompt asked (text (h.answer v.log prompt)))
            (after_event (prompted prompt) v)
  unfolding tries raw_answer input_func truthy ◌>>=◌
  tries-Refused_step n default prompt v r = rw (r.typed v.log prompt, r.invalid v.log prompt)

  tries-Refused :
      (default : Answer) (p : String) (v : World)
      → Refused h
      → (p₂ p₃ : String) × (tries h 3 asked default p v ≡ (
        raised invalid_answer,
        record v { log = prompted p₃ ∷ prompted p₂ ∷ prompted p ∷ v.log },
      ))
  unfolding raise
  tries-Refused default p v r =
      let p₂ = next_prompt asked (text (h.answer v.log p)) in
      let p₃ = next_prompt asked (text (h.answer (prompted p ∷ v.log) p₂)) in
      (
        p₂,
        p₃,
        tries-Refused_step 2 default p v r
            ∙ tries-Refused_step 1 default p₂ _ r
            ∙ tries-Refused_step 0 default p₃ _ r
            ∙ unfold tries in refl,
      )

  loaded :
      (w : World)
      → h.status w.log (load_command key) ≡ 0
      → ask h asked w ≡ (
          let default = from_config (strip (h.output w.log (load_command key))) in
          tries h 3 asked default
            (first_prompt asked default)
            (after_event (command (load_command key)) w))
  unfolding ask load check_output ◌>>=◌
  loaded w e = rw e

  -- Three lines that are not empty and are neither yes nor no end a boolean question with
  -- InvalidAnswer, after one look at the configuration and three prompts: no handler ran and
  -- nothing was stored. The read of the configuration succeeds.
  pub ask-Refused :
      (w : World)
      → Refused h
      → h.status w.log (load_command key) ≡ 0
      → (p₁ p₂ p₃ : String) × (ask h asked w ≡ (
        raised invalid_answer,
        record w {
          log = prompted p₃ ∷ prompted p₂ ∷ prompted p₁ ∷ command (load_command key) ∷ w.log;
        },
      ))
  ask-Refused w r e =
      let default = from_config (strip (h.output w.log (load_command key))) in
      let p₁ = first_prompt asked default in
      let (p₂, p₃, q) = tries-Refused default p₁ (after_event (command (load_command key)) w) r in
      (p₁, p₂, p₃, loaded w e ∙ q)
