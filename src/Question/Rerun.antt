-- ===== src/Question/Rerun.antt =====
-- Questions that nobody answers: runs that are not interactive, and runs that are repeated.
use microstack.Base.{
  ℕ, zero, suc, String, ◌<>◌, ◌≡◌, refl, Bool, true, false, some, List, [], ◌∷◌, strip, subst,
  Bool-cases, inl, inr,
}
use microstack.Machine.{History, Host, World, command, after_event, invalid_answer}
use microstack.Machine.Monad.{Outcome, ok, raised, Action, pure, raise, branch, bind-eq-ok, ◌>>=◌}
use microstack.Shell.{check, check_output}
use microstack.Question.{
  Kind, boolean, string, Answer, truthy, Question, validate, from_config, load, to_config,
  input_func, base, with_code, skip,
}
use microstack.Question.Answers.{IsStored, IsPlain, validate-reload}
use microstack.Question.Laws.{tries-eq-ok, conclude_order, save_lem, save_command}
use microstack.Question.Ask.{ask, tries, raw_answer, conclude}

-- The command by which `_load` reads an answer.
abbrev pub load_command : String → List String
load_command key = "snapctl" ∷ "get" ∷ key ∷ []

-- What a verdict on the configured answer leads to.
abbrev pub settle : Host → Question → Outcome (Answer × Bool) → Action Answer
settle h q (ok (a, true)) = conclude h q a
settle h q (ok (a, false)) = raise invalid_answer
settle h q (raised e) = raise e

-- A question with its own code, asked without a user.
abbrev pub quiet :
    Host
    → Kind
    → String
    → String
    → (Answer → Action (Unit {0}))
    → (Answer → Action (Unit {0}))
    → (Answer → Action (Unit {0}))
    → Question
quiet h kind question key on_yes on_no after =
    with_code (base h kind question key false) on_yes on_no after

module _ (h : Host) (question key : String) (on_yes on_no after : Answer → Action (Unit {0})) where
  raw_answer-quiet :
      (kind : Kind) (default : Answer) (prompt : String) (v : World)
      → IsStored kind
      → raw_answer (quiet h kind question key on_yes on_no after) default prompt v ≡ (ok default, v)
  unfolding raw_answer input_func truthy ◌>>=◌
  raw_answer-quiet boolean default prompt v st = refl
  raw_answer-quiet string default prompt v st = refl
  raw_answer-quiet _ default prompt v st = absurd st

  -- Every try of a question that is not interactive gives the same verdict.
  tries-quiet :
      (kind : Kind) (n : ℕ) (default : Answer) (prompt : String) (v : World)
      (r : Outcome (Answer × Bool))
      → IsStored kind
      → validate kind default ≡ r
      → tries h (suc n) (quiet h kind question key on_yes on_no after) default prompt v
        ≡ settle h (quiet h kind question key on_yes on_no after) r v
  unfolding tries raise ◌>>=◌
  tries-quiet kind n default prompt v (ok (a, true)) st e =
      rw (raw_answer-quiet kind default prompt v st, e)
  tries-quiet kind zero default prompt v (ok (a, false)) st e =
      rw (raw_answer-quiet kind default prompt v st, e)
  tries-quiet kind (suc n) default prompt v (ok (a, false)) st e =
      rw (raw_answer-quiet kind default prompt v st, e)
        (tries-quiet kind n default _ v (ok (a, false)) st e)
  tries-quiet kind n default prompt v (raised x) st e =
      rw (raw_answer-quiet kind default prompt v st, e)

  -- A boolean or text question of the class Question, with any code of its own in yes, no and
  -- after, that is not interactive and whose read of the configuration succeeds, reads its answer
  -- there, once. A valid one is concluded with, an invalid one raises InvalidAnswer, and what
  -- `_validate` raises is raised.
  pub ask-quiet :
      (kind : Kind) (w : World)
      → IsStored kind
      → h.status w.log (load_command key) ≡ 0
      → ask h (quiet h kind question key on_yes on_no after) w
        ≡ settle h
            (quiet h kind question key on_yes on_no after)
            (validate kind (from_config (strip (h.output w.log (load_command key)))))
            (after_event (command (load_command key)) w)
  unfolding ask load check_output ◌>>=◌
  ask-quiet boolean w st e = rw e (tries-quiet boolean 2 _ _ _ _ st refl)
  ask-quiet string w st e = rw e (tries-quiet string 2 _ _ _ _ st refl)
  ask-quiet _ w st e = absurd st

-- A question whose answer is only stored, with and without a user.
abbrev pub plain : Host → Kind → String → String → Bool → Question
plain h kind question key interactive = base h kind question key interactive

-- What `snapctl` does for a key: both commands succeed, and a value is read as it was last set.
pub record Stores (h : Host) (key value : String) : Type 0 where
  pub set_succeeds :
      (log : History) → h.status log ("snapctl" ∷ "set" ∷ (key <> "=" <> value) ∷ []) ≡ 0
  pub get_succeeds : (log : History) → h.status log (load_command key) ≡ 0
  pub reads_back :
      (log : History)
      → strip (
          h.output
            (command ("snapctl" ∷ "set" ∷ (key <> "=" <> value) ∷ []) ∷ log)
            (load_command key))
        ≡ value

module _ (h : Host) (question key : String) where
  conclude_skip :
      (kind : Kind) (a : Answer) (w : World)
      → IsStored kind
      → Stores h key (to_config kind a)
      → (conclude h (plain h kind question key false) a w).0 ≡ ok a
  unfolding conclude check ◌>>=◌
  conclude_skip kind a w st s = elim (Bool-cases (truthy a)) [
    | inl e ↦ rw (e, branch, save_lem h kind (some key) a st, s.set_succeeds w.log)
    | inr e ↦ rw (e, branch, save_lem h kind (some key) a st, s.set_succeeds w.log)
  ]

  -- After `snapctl set`, the stored answer is read, validated and concluded with.
  ask_stored :
      (kind : Kind) (typed a : Answer) (u : World)
      → IsStored kind
      → IsPlain a
      → Stores h key (to_config kind a)
      → validate kind typed ≡ ok (a, true)
      → (ask h
          (plain h kind question key false)
          (after_event (command (save_command (plain h kind question key true) a)) u)).0
        ≡ ok a
  ask_stored kind typed a u st p s e =
      rw
        (
          ask-quiet h question key skip skip skip kind
              (after_event (command (save_command (plain h kind question key true) a)) u) st
              (s.get_succeeds _),
          s.reads_back u.log,
          validate-reload kind typed a st e p,
        )
        (conclude_skip kind a _ st s)

  -- A bool, or a text other than true, false and null, that a user gave to a question with no
  -- code of its own, and that the configuration keeps, is the answer of a later run of this
  -- question that asks nobody.
  pub ask_again :
      (kind : Kind) (a : Answer) (w w' : World)
      → IsStored kind
      → IsPlain a
      → Stores h key (to_config kind a)
      → ask h (plain h kind question key true) w ≡ (ok a, w')
      → (ask h (plain h kind question key false) w').0 ≡ ok a
  unfolding ask pure
  ask_again kind a w w' st p s e =
      let (d, v, p₁, e₁) = bind-eq-ok (load h kind (some key)) _ w w' e in
      let acc = tries-eq-ok h 3 (plain h kind question key true) d _ a v w' e₁ in
      let (same, done) =
        conclude_order h (plain h kind question key true) acc.answer a acc.at w' st acc.concludes in
      let accepts = subst (λ x. validate kind acc.typed ≡ ok (x, true)) same acc.accepts in
      let stored : after_event (command (save_command (plain h kind question key true) a))
            done.handled
          ≡ w' =
        cc (same, done.after_stored) in
      subst (λ x. (ask h (plain h kind question key false) x).0 ≡ ok a) stored
        (ask_stored kind acc.typed a done.handled st p s accepts)
