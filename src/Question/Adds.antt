-- ===== src/Question/Adds.antt =====
-- The events of a question, from those of its methods.
use microstack.Base.{ℕ, zero, suc, String, ◌<>◌, refl, Bool, true, false, Option, [], ◌∷◌}
use microstack.Machine.{Event, command, prompted, Host}
use microstack.Machine.Adds.{
  Adds, adds_rules, Adds-raise, Adds-pure, Adds-lift, Adds-bind, Adds-then, Adds-branch,
}
use microstack.Shell.Laws.{Adds-check, Adds-check_output}
use microstack.Question.{
  Kind, boolean, string, auto, unknown, Answer, Question, input_func, load, save, key_text,
}
use microstack.Question.Ask.{ask, tries, raw_answer, conclude}

-- What the methods of a question do, and how its answer is stored, satisfies `P`.
pub record Within {ℓ} (h : Host) (P : Event → Type ℓ) (q : Question) : Type ℓ where
  pub loads : Adds P q.load
  pub asks : (prompt : String) → Adds P (q.input_func prompt)
  pub says_yes : (a : Answer) → Adds P (q.on_yes a)
  pub says_no : (a : Answer) → Adds P (q.on_no a)
  pub follows : (a : Answer) → Adds P (q.after a)
  pub stores : (a : Answer) → Adds P (save h q.kind q.config_key a)

module _ {ℓ} {P : Event → Type ℓ} (h : Host) where
  pub Adds-raw_answer :
      (q : Question) (default : Answer) (prompt : String)
      → ((s : String) → Adds P (q.input_func s))
      → Adds P (raw_answer q default prompt)
  unfolding raw_answer
  Adds-raw_answer q default prompt r = go q.kind
    where
      go : (k : Kind) → Adds P (raw_answer (record q { kind = k }) default prompt)
      go auto = Adds-pure _
      go boolean = Adds-bind _ _ (r prompt) (λ a. Adds-pure _)
      go string = Adds-bind _ _ (r prompt) (λ a. Adds-pure _)
      go (unknown _) = Adds-bind _ _ (r prompt) (λ a. Adds-pure _)

  Adds-conclude : (q : Question) (a : Answer) → Within h P q → Adds P (conclude h q a)
  unfolding conclude
  Adds-conclude q a r =
      Adds-then _ _ (Adds-branch _ _ _ (r.says_yes a) (r.says_no a))
        (Adds-then _ _ (r.stores a) (Adds-then _ _ (r.follows a) (Adds-pure a)))

  Adds-tries :
      (n : ℕ) (q : Question) (default : Answer) (prompt : String)
      → Within h P q
      → Adds P (tries h n q default prompt)
  unfolding tries
  Adds-tries zero q default prompt r = Adds-raise _
  Adds-tries (suc n) q default prompt r =
      Adds-bind _ _ (Adds-raw_answer q default prompt r.asks) λ typed.
        Adds-bind _ _ (Adds-lift _)
          λ x. Adds-branch _ _ _ (Adds-conclude q x.0 r) (Adds-tries n q default _ r)

  pub Adds-ask : (q : Question) → Within h P q → Adds P (ask h q)
  unfolding ask
  Adds-ask q r = Adds-bind _ _ r.loads (λ default. Adds-tries q.retries q default _ r)

  pub Adds-save :
      (k : Kind) (key : Option String) (a : Answer)
      → ((s : String) → P (command ("snapctl" ∷ "set" ∷ (key_text key <> ("=" <> s)) ∷ [])))
      → Adds P (save h k key a)
  unfolding save
  Adds-save auto key a p = Adds-pure _
  Adds-save boolean key a p = Adds-check h _ (p _)
  Adds-save string key a p = Adds-check h _ (p _)
  Adds-save (unknown _) key a p = Adds-check h _ (p _)

  pub Adds-load :
      (k : Kind) (key : Option String)
      → P (command ("snapctl" ∷ "get" ∷ key_text key ∷ []))
      → Adds P (load h k key)
  unfolding load
  Adds-load auto key p = Adds-pure _
  Adds-load boolean key p = search (adds_rules, Adds-check_output {P = P} h _ p)
  Adds-load string key p = search (adds_rules, Adds-check_output {P = P} h _ p)
  Adds-load (unknown _) key p = search (adds_rules, Adds-check_output {P = P} h _ p)

  pub Adds-input_func :
      (interactive : Bool) (prompt : String)
      → ((s : String) → P (prompted s))
      → Adds P (input_func h interactive prompt)
  unfolding input_func
  Adds-input_func false prompt p = Adds-pure _
  Adds-input_func true prompt p = record {
    from = λ w. record { new = prompted prompt ∷ []; eq = refl; each = (p prompt, tt) };
  }
