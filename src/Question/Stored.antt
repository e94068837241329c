-- ===== src/Question/Stored.antt =====
-- What a question leaves in the snap configuration.
use microstack.Base.{ℕ, zero, suc, String, ◌<>◌, ◌≡◌, sym, ap, ◌∙◌, true, some, [], ◌∷◌, inl, inr}
use microstack.Base.Apart.{is_key}
use microstack.Machine.{Event, Host, World, command}
use microstack.Machine.Monad.{ok, Action, raise, lift, bind-eq-ok}
use microstack.Machine.Adds.{Adds, Adds-branch}
use microstack.Shell.Snap.{Snap, Keeps, snap, snap-append, snap-set, put}
use microstack.Question.{Answer, Question, to_config, key_text}
use microstack.Question.Answers.{IsStored}
use microstack.Question.Adds.{Adds-raw_answer}
use microstack.Question.Ask.{ask, tries, raw_answer, conclude}
use microstack.Question.Laws.{conclude_order, handler, branch_cases}

-- A question whose methods set no key; its answer is stored by `_save` alone.
pub record IsPlainSpoken (q : Question) : Type 0 where
  pub loads : Adds Keeps q.load
  pub asks : (prompt : String) → Adds Keeps (q.input_func prompt)
  pub says_yes : (a : Answer) → Adds Keeps (q.on_yes a)
  pub says_no : (a : Answer) → Adds Keeps (q.on_no a)
  pub follows : (a : Answer) → Adds Keeps (q.after a)

module _ {A : Type 0} (m : Snap) where
  -- An action that sets nothing and returns leaves the configuration.
  snap-Adds :
      (f : Action A) (w v : World) {a : A}
      → Adds Keeps f
      → f w ≡ (ok a, v)
      → snap m v.log ≡ snap m w.log
  snap-Adds f w v p e =
      let b = p.from w in
      ap (λ r. snap m r.1.log) (sym e) ∙ ap (snap m) b.eq ∙ snap-append m b.new w.log b.each

abbrev set_event : String → String → Event
set_event key value = command ("snapctl" ∷ "set" ∷ (key <> ("=" <> value)) ∷ [])

module _ (h : Host) (m : Snap) (q : Question) (key : String) (plain : IsPlainSpoken q)
    (stored : IsStored q.kind) (has_key : q.config_key ≡ some key) (good : is_key key ≡ true) where
  conclude-snap :
      (a b : Answer) (w v : World)
      → conclude h q a w ≡ (ok b, v)
      → snap m v.log ≡ put key (to_config q.kind b) (snap m w.log)
  conclude-snap a b w v e =
      let (same, c) = conclude_order h q a b w v stored e in
      snap-Adds m (q.after a) _ v (plain.follows a) c.after_stored
      ∙ ap (λ k. snap m (set_event (key_text k) (to_config q.kind a) ∷ c.handled.log)) has_key
      ∙ ap (λ x. snap m (set_event key (to_config q.kind x) ∷ c.handled.log)) same
      ∙ snap-set m key (to_config q.kind b) c.handled.log good
      ∙ ap (put key (to_config q.kind b)) (
          snap-Adds m (handler q a) w c.handled
            (Adds-branch _ _ _ (plain.says_yes a) (plain.says_no a)) c.handles)

  raw_answer-Keeps : (default : Answer) (prompt : String) → Adds Keeps (raw_answer q default prompt)
  raw_answer-Keeps default prompt = Adds-raw_answer h q default prompt plain.asks

  tries-snap :
      (n : ℕ) (default : Answer) (prompt : String) (b : Answer) (w v : World)
      → tries h n q default prompt w ≡ (ok b, v)
      → snap m v.log ≡ put key (to_config q.kind b) (snap m w.log)
  unfolding tries raise lift
  tries-snap zero default prompt b w v e = absurd (cc)
  tries-snap (suc n) default prompt b w v e =
      let (typed, w₁, p, e₁) = bind-eq-ok (raw_answer q default prompt) _ w v e in
      let (r, w₂, p₁, e₂) = bind-eq-ok (lift (q.validate typed)) _ w₁ v e₁ in
      let before =
        ap (λ x. snap m x.1.log) (sym p₁)
        ∙ snap-Adds m (raw_answer q default prompt) w w₁ (raw_answer-Keeps default prompt) p in
      elim (branch_cases r.1 _ _ w₂ e₂) [
        | inl (g, d) ↦ conclude-snap r.0 b w₂ v d ∙ ap (put key (to_config q.kind b)) before
        | inr (g, d) ↦ tries-snap n default _ b w₂ v d ∙ ap (put key (to_config q.kind b)) before
      ]

  -- A question whose methods set no key, and that returns an answer, has set its own key to this
  -- answer, as `_save` writes it, and has left every other key of the configuration.
  pub ask-snap :
      (b : Answer) (w v : World)
      → ask h q w ≡ (ok b, v)
      → snap m v.log ≡ put key (to_config q.kind b) (snap m w.log)
  unfolding ask
  ask-snap b w v e =
      let (default, u, p, e₁) = bind-eq-ok q.load _ w v e in
      tries-snap q.retries default _ b u v e₁
      ∙ ap (put key (to_config q.kind b)) (snap-Adds m q.load w u plain.loads p)
