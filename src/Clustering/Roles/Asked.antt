-- ===== src/Clustering/Roles/Asked.antt =====
-- The role that a user is asked for.
use microstack.Base.{
  ℕ, zero, suc, String, ◌<>◌, ◌==◌, eq_iff, ◌≡◌, refl, sym, if◌then◌else◌, ap, ◌∙◌, subst, some,
  lower, Bool, true, false, ◌⊎◌, inl, inr, List, [], ◌∷◌, contains, arith, Bool-cases,
}
use microstack.Machine.{Host, World, command, prompted}
use microstack.Shell.{check, check_output}
use microstack.Machine.Monad.{Outcome, ok, Action, pure, raise, lift, branch, bind-eq-ok, ◌>>=◌}
use microstack.Question.{string, Answer, text, truthy, Question, validate, load, save, to_config}
use microstack.Question.Ask.{ask, tries, raw_answer, conclude, next_prompt}
use microstack.Clustering.Roles.{input, role_tries, role_input, role_question, role_key, role_text}

abbrev pub load_role : List String
load_role = "snapctl" ∷ "get" ∷ role_key ∷ []

abbrev pub save_role : String → List String
save_role s = "snapctl" ∷ "set" ∷ (role_key <> ("=" <> s)) ∷ []

-- The answers that a role may be.
abbrev pub IsRole : Answer → Type 0
IsRole a = (a ≡ text "control") ⊎ (a ≡ text "compute")

is_role : (s : String) → contains ("control" ∷ "compute" ∷ []) s ≡ true → IsRole (text s)
is_role s e = elim (Bool-cases (s == "control")) [
  | inl p ↦ inl (ap text ((eq_iff s "control").0 p))
  | inr p ↦ inr (ap text ((eq_iff s "compute").0 (ground (arith, e, p))))
]

ok-eq : {A : Type 0} {x y : A} → ◌≡◌ {A = Outcome A} (ok x) (ok y) → y ≡ x
ok-eq e = cc

lift-eq-ok : {A : Type 0} (r : Outcome A) (w v : World) (x : A) → lift r w ≡ (ok x, v) → r ≡ ok x
unfolding lift
lift-eq-ok r w v x e = cc

text-eq : (s t : String) → text s ≡ text t → s ≡ t
text-eq s t e = cc

contains_role : (s : String) → IsRole (text s) → contains ("control" ∷ "compute" ∷ []) s ≡ true
contains_role s (inl e) = rw (text-eq s "control" e) refl
contains_role s (inr e) = rw (text-eq s "compute" e) refl

module _ (h : Host) where
  choose :
      (b : Bool) (s : String) (m : Action Answer) (a : Answer) (w w' : World)
      → branch b (pure (text s)) m w ≡ (ok a, w')
      → ((b ≡ true) × (text s ≡ a)) ⊎ (m w ≡ (ok a, w'))
  unfolding branch pure
  choose true s m a w w' e = inl (refl, cc)
  choose false s m a w w' e = inr e

  role_tries-IsRole : (n : ℕ) (a : Answer) (w w' : World) → role_tries h n w ≡ (ok a, w') → IsRole a
  unfolding role_tries raise
  role_tries-IsRole zero a w w' e = absurd (cc)
  role_tries-IsRole (suc n) a w w' e =
      let (s, v, p, e₁) = bind-eq-ok (input h _) _ w w' e in
      elim (choose _ s (role_tries h n) a v w' e₁) [
        | inl (c, q) ↦ subst IsRole q (is_role s c)
        | inr e₂ ↦ role_tries-IsRole n a v w' e₂
      ]

  validate_role : (a : Answer) → IsRole a → validate string a ≡ ok (a, true)
  unfolding validate lower
  validate_role a (inl e) = rw e refl
  validate_role a (inr e) = rw e refl

  truthy_role : (a : Answer) → IsRole a → truthy a ≡ true
  unfolding truthy
  truthy_role a (inl e) = rw e refl
  truthy_role a (inr e) = rw e refl

  conclude_same :
      (q : Question) (a b : Answer) (w w' : World) → conclude h q a w ≡ (ok b, w') → a ≡ b
  unfolding conclude pure
  conclude_same q a b w w' e =
      let (_, v₁, p₁, e₁) = bind-eq-ok (branch (truthy a) (q.on_yes a) (q.on_no a)) _ w w' e in
      let (_, v₂, p₂, e₂) = bind-eq-ok (save h q.kind q.config_key a) _ v₁ w' e₁ in
      let (_, v₃, p₃, e₃) = bind-eq-ok (q.after a) _ v₂ w' e₂ in cc

  raw_answer-IsRole :
      (default : Answer) (prompt : String) (a : Answer) (w w' : World)
      → raw_answer (role_question h true) default prompt w ≡ (ok a, w')
      → IsRole a
  unfolding raw_answer role_input pure
  raw_answer-IsRole default prompt a w w' e =
      let (r, v, p, e₁) = bind-eq-ok (role_tries h 3) _ w w' e in
      let i = role_tries-IsRole 3 r w v p in
      let t : truthy r ≡ true = truthy_role r i in
      let same : (if truthy r then r else default) ≡ a = cc in
      subst IsRole (subst (λ b. (if b then r else default) ≡ a) t same) i

  tries-IsRole :
      (n : ℕ) (default : Answer) (prompt : String) (a : Answer) (w w' : World)
      → tries h n (role_question h true) default prompt w ≡ (ok a, w')
      → IsRole a
  unfolding tries raise lift branch
  tries-IsRole zero default prompt a w w' e = absurd (cc)
  tries-IsRole (suc n) default prompt a w w' e =
      let (r, v, p, e₁) = bind-eq-ok (raw_answer (role_question h true) default prompt) _ w w' e in
      let i = raw_answer-IsRole default prompt r w v p in
      let (x, u, q, e₂) = bind-eq-ok (lift (validate string r)) _ v w' e₁ in
      let valid : x ≡ (r, true) =
        ok-eq (sym (validate_role r i) ∙ lift-eq-ok (validate string r) v u x q) in
      let q = role_question h true in
      let concludes : conclude h q r u ≡ (ok a, w') =
        subst
          (λ (x : Answer × Bool).
            branch x.1 (conclude h q x.0) (tries h n q default (next_prompt q x.0)) u ≡ (ok a, w'))
          valid e₂ in
      subst IsRole (conclude_same q r a u w' concludes) i

  -- A question about the role that a user is asked and that returns, returns control or compute:
  -- neither the default of the configuration nor another word is taken.
  pub ask-IsRole :
      (a : Answer) (w w' : World) → ask h (role_question h true) w ≡ (ok a, w') → IsRole a
  unfolding ask
  ask-IsRole a w w' e =
      let (default, v, p, e₁) = bind-eq-ok (load h string (some role_key)) _ w w' e in
      tries-IsRole 3 default _ a v w' e₁

  -- A role that is typed at the first prompt is the answer: one look at the configuration, one
  -- prompt, and one command that stores it, if both commands succeed.
  pub ask_role-typed :
      (s : String) (w : World)
      → IsRole (text s)
      → h.answer (command load_role ∷ w.log) (role_text <> " > ") ≡ s
      → h.status w.log load_role ≡ 0
      → h.status (prompted (role_text <> " > ") ∷ command load_role ∷ w.log) (save_role s) ≡ 0
      → ask h (role_question h true) w ≡ (
        ok (text s),
        record w {
          log = command (save_role s) ∷ prompted (role_text <> " > ") ∷ command load_role ∷ w.log;
        },
      )
  unfolding ask load tries raw_answer role_input role_tries input conclude save check check_output
      to_config ◌>>=◌
  ask_role-typed s w i a l k =
      rw
        (
          l,
          a,
          contains_role s i,
          truthy_role (text s) i,
          validate_role (text s) i,
          truthy_role (text s) i,
          k,
        )
        refl
