-- ===== src/Question/Laws.antt =====
-- What `ask` does, from its kind and from the answers that it gets.
use microstack.Base.{
  ℕ, zero, suc, String, ◌<>◌, ◌≡◌, refl, Bool, true, false, Option, List, [], ◌∷◌, inl, inr, ◌⊎◌,
  ap, ◌∙◌,
}
use microstack.Machine.{Host, World, command, after_event}
use microstack.Machine.Monad.{
  Outcome, ok, Action, pure, raise, lift, branch, bind-eq-ok, ◌>>=◌, ◌>>◌,
}
use microstack.Shell.{check}
use microstack.Shell.Laws.{check-eq-ok}
use microstack.Question.{
  Kind, boolean, string, auto, Answer, flag, truthy, Question, validate, load, save, to_config,
  key_text, base, with_code,
}
use microstack.Question.Answers.{IsStored}
use microstack.Question.Ask.{ask, tries, raw_answer, conclude, next_prompt}

module _ (h : Host) (question key : String) (interactive : Bool)
    (on_yes on_no after : Answer → Action (Unit {0})) (w : World) where
  -- A question of type auto runs `yes(True)` and `after(True)` and returns True: it asks nobody,
  -- and neither reads nor writes the configuration.
  pub ask_auto :
      ask h (with_code (base h auto question key interactive) on_yes on_no after) w
      ≡ (do on_yes (flag true); after (flag true); pure (flag true)) w
  unfolding ask tries raw_answer conclude validate load save truthy ◌>>=◌
  ask_auto = refl

-- The handler that `ask` calls for an answer.
abbrev pub handler : Question → Answer → Action (Unit {0})
handler q a = branch (truthy a) (q.on_yes a) (q.on_no a)

-- An answer for which `conclude` returns: its handler has returned, then the answer was stored by
-- one `snapctl set`, which succeeded, and then `after` has returned.
pub record IsConcluded (h : Host) (q : Question) (a : Answer) (w w' : World) : Type 0 where
  pub handled : World
  pub handles : handler q a w ≡ (ok tt, handled)
  pub stores :
      h.status handled.log
        ("snapctl" ∷ "set" ∷ (key_text q.config_key <> "=" <> to_config q.kind a) ∷ [])
      ≡ 0
  pub after_stored :
      q.after a (
        after_event
          (command ("snapctl" ∷ "set" ∷ (key_text q.config_key <> "=" <> to_config q.kind a) ∷ []))
          handled)
      ≡ (ok tt, w')

-- The command by which `_save` stores an answer.
abbrev pub save_command : Question → Answer → List String
save_command q a = "snapctl" ∷ "set" ∷ (key_text q.config_key <> "=" <> to_config q.kind a) ∷ []

pub save_lem :
    (h : Host) (k : Kind) (key : Option String) (a : Answer)
    → IsStored k
    → save h k key a ≡ check h ("snapctl" ∷ "set" ∷ (key_text key <> "=" <> to_config k a) ∷ [])
unfolding save
save_lem h boolean key a st = refl
save_lem h string key a st = refl
save_lem h _ key a st = absurd st

-- A conclusion that returns, returns the answer it was given, and has called the handler, stored
-- the answer and called `after`, in this order.
pub conclude_order :
    (h : Host) (q : Question) (a b : Answer) (w w' : World)
    → IsStored q.kind
    → conclude h q a w ≡ (ok b, w')
    → (a ≡ b) × IsConcluded h q a w w'
unfolding conclude pure
conclude_order h q a b w w' k e =
    let (_, v₁, p₁, e₁) = bind-eq-ok (handler q a) _ w w' e in
    let (_, v₂, p₂, e₂) = bind-eq-ok (save h q.kind q.config_key a) _ v₁ w' e₁ in
    let (_, v₃, p₃, e₃) = bind-eq-ok (q.after a) _ v₂ w' e₂ in
    let p₂' : check h (save_command q a) v₁ ≡ (ok tt, v₂) =
      rw (save_lem h q.kind q.config_key a k) at p₂ in
    let (s, u) = check-eq-ok h (save_command q a) v₁ v₂ p₂' in
    (cc, record { handled = v₁; handles = p₁; stores = s; after_stored = rw (← u) (cc) })

pub branch_cases :
    {A : Type 0} (b : Bool) (m n : Action A) (w : World) {r : Outcome A × World}
    → branch b m n w ≡ r
    → ((b ≡ true) × (m w ≡ r)) ⊎ ((b ≡ false) × (n w ≡ r))
unfolding branch
branch_cases true m n w e = inl (refl, e)
branch_cases false m n w e = inr (refl, e)

-- The try that ended the loop: what was validated, the valid answer, and the world at that time.
pub record IsAccepted (h : Host) (q : Question) (b : Answer) (w' : World) : Type 0 where
  pub typed : Answer
  pub answer : Answer
  pub at : World
  pub accepts : q.validate typed ≡ ok (answer, true)
  pub concludes : conclude h q answer at ≡ (ok b, w')

pub lift-eq-ok :
    (r : Outcome (Answer × Bool)) (w v : World) (x : Answer × Bool)
    → lift r w ≡ (ok x, v)
    → r ≡ ok x
unfolding lift
lift-eq-ok r w v x e = cc

-- A run of the tries that returns has found an answer valid, and concluded with it.
pub tries-eq-ok :
    (h : Host) (n : ℕ) (q : Question) (default : Answer) (prompt : String) (b : Answer)
    (w w' : World)
    → tries h n q default prompt w ≡ (ok b, w')
    → IsAccepted h q b w'
unfolding tries raise
tries-eq-ok h zero q default prompt b w w' e = absurd (cc)
tries-eq-ok h (suc n) q default prompt b w w' e =
    let (typed, v, p, e₁) = bind-eq-ok (raw_answer q default prompt) _ w w' e in
    let (r, u, p₁, e₂) = bind-eq-ok (lift (q.validate typed)) _ v w' e₁ in
    let f : q.validate typed ≡ ok r = lift-eq-ok (q.validate typed) v u r p₁ in
    elim (branch_cases r.1 _ _ u e₂) [
      | inl (g, c) ↦ record {
        typed = typed;
        answer = r.0;
        at = u;
        accepts = f ∙ ap (λ x. ok (r.0, x)) g;
        concludes = c;
      }
      | inr (g, c) ↦ tries-eq-ok h n q default (next_prompt q r.0) b u w' c
    ]
