-- ===== src/Machine/Performs.antt =====
-- The events that an action which returns has added to the log, in their order.
use mathlib.Core.List.{append-nil, append_assoc}
use microstack.Base.{
  String, ◌≡◌, sym, ap, ◌∙◌, Bool, true, false, subst, ◌⊎◌, inl, inr, List, [], ◌∷◌, ◌++◌,
}
use microstack.Machine.{Event, History, World}
use microstack.Machine.Monad.{ok, Action, branch, ◌>>=◌, bind-eq-ok}
use microstack.Machine.Adds.{Adds}

-- The events `xs` are among `ys`, in their order.
unfoldable pub IsAmong : List Event → List Event → Type 0
IsAmong [] ys = Unit
IsAmong (x ∷ xs) [] = ⊥
IsAmong (x ∷ xs) (y ∷ ys) = ((x ≡ y) × IsAmong xs ys) ⊎ IsAmong (x ∷ xs) ys

IsAmong-after : (xs new ys : List Event) → IsAmong xs ys → IsAmong xs (new ++ ys)
unfolding IsAmong
IsAmong-after xs [] ys p = p
IsAmong-after [] (y ∷ new) ys p = tt
IsAmong-after (x ∷ xs) (y ∷ new) ys p = inr (IsAmong-after (x ∷ xs) new ys p)

IsAmong-append :
    (xs ys xs' ys' : List Event) → IsAmong xs ys → IsAmong xs' ys' → IsAmong (xs ++ xs') (ys ++ ys')
unfolding IsAmong
IsAmong-append [] ys xs' ys' p q = IsAmong-after xs' ys ys' q
IsAmong-append (x ∷ xs) [] xs' ys' p q = absurd p
IsAmong-append (x ∷ xs) (y ∷ ys) xs' ys' (inl (e, p)) q = inl (e, IsAmong-append xs ys xs' ys' p q)
IsAmong-append (x ∷ xs) (y ∷ ys) xs' ys' (inr p) q = inr (IsAmong-append (x ∷ xs) ys xs' ys' p q)

-- Between two histories there are new events, the ones of a list among them, newest first.
abbrev pub Has : List Event → History → History → Type 0
Has xs old log = (new : List Event) × (log ≡ new ++ old) × IsAmong xs new

-- An action that returns has added these events, newest first.
pub record Performs {ℓ} {A : Type ℓ} (xs : List Event) (m : Action A) : Type ℓ where
  pub from : (w v : World) (a : A) → m w ≡ (ok a, v) → Has xs w.log v.log

pub Has-trans :
    {a b c : History} (xs ys : List Event) → Has xs a b → Has ys b c → Has (ys ++ xs) a c
Has-trans xs ys (new, e, p) (new', e', p') = (
  new' ++ new,
  e' ∙ ap (λ l. new' ++ l) e ∙ (rw append_assoc),
  IsAmong-append ys new' xs new p' p,
)

pub Performs-nil {ℓ κ} : {A : Type ℓ} {P : Event → Type κ} (m : Action A) → Adds P m → Performs [] m
unfolding IsAmong
Performs-nil m p = record {
  from = λ w v a e. let b = p.from w in (b.new, sym (ap (λ r. r.1.log) e) ∙ b.eq, tt);
}

module _ {A B : Type 0} where
  pub Performs-bind :
      (xs ys : List Event) (m : Action A) (f : A → Action B)
      → Performs xs m
      → ((a : A) → Performs ys (f a))
      → Performs (ys ++ xs) (m >>= f)
  Performs-bind xs ys m f p q = record {
    from = λ w v b e.
        let (a, u, d, d') = bind-eq-ok m f w v e in
        Has-trans xs ys (p.from w u a d) ((q a).from u v b d');
  }

  -- An action that adds events of its own, before one that performs.
  pub Performs-then :
      {P : Event → Type 0} (ys : List Event) (m : Action A) (f : A → Action B)
      → Adds P m
      → ((a : A) → Performs ys (f a))
      → Performs ys (m >>= f)
  Performs-then ys m f p q =
      subst (λ l. Performs l (m >>= f)) (append-nil ys)
        (Performs-bind [] ys m f (Performs-nil m p) q)

  -- The same, after one that performs.
  pub Performs-before :
      {P : Event → Type 0} (xs : List Event) (m : Action A) (f : A → Action B)
      → Performs xs m
      → ((a : A) → Adds P (f a))
      → Performs xs (m >>= f)
  Performs-before xs m f p q = Performs-bind xs [] m f p (λ a. Performs-nil (f a) (q a))

pub Performs-branch :
    {A : Type 0} (xs : List Event) (b : Bool) (m n : Action A)
    → Performs xs m
    → Performs xs n
    → Performs xs (branch b m n)
unfolding branch
Performs-branch xs true m n p q = record { from = λ w. p.from w }
Performs-branch xs false m n p q = record { from = λ w. q.from w }

-- An action that returns has added these events, which name a text that it read.
pub record PerformsAt {A : Type 0} (xs : String → List Event) (m : Action A) : Type 0 where
  pub from : (w v : World) (a : A) → m w ≡ (ok a, v) → (s : String) × Has (xs s) w.log v.log

module _ {A B : Type 0} where
  pub PerformsAt-bind :
      (ys : List Event) (xs : String → List Event) (m : Action A) (f : A → Action B)
      → Performs ys m
      → ((a : A) → PerformsAt xs (f a))
      → PerformsAt (λ s. xs s ++ ys) (m >>= f)
  PerformsAt-bind ys xs m f p q = record {
    from = λ w v b e.
        let (a, u, d, d') = bind-eq-ok m f w v e in
        let (s, has) = (q a).from u v b d' in (s, Has-trans ys (xs s) (p.from w u a d) has);
  }

  pub PerformsAt-then :
      {P : Event → Type 0} (xs : String → List Event) (m : Action A) (f : A → Action B)
      → Adds P m
      → ((a : A) → PerformsAt xs (f a))
      → PerformsAt xs (m >>= f)
  PerformsAt-then xs m f p q = record {
    from = λ w v b e.
        let (s, has) = (PerformsAt-bind [] xs m f (Performs-nil m p) q).from w v b e in
        (s, subst (λ l. Has l w.log v.log) (append-nil (xs s)) has);
  }

pub PerformsAt-read :
    {A : Type 0} {P : Event → Type 0} (xs : String → List Event) (m : Action String)
    (f : String → Action A)
    → Adds P m
    → ((s : String) → Performs (xs s) (f s))
    → PerformsAt xs (m >>= f)
PerformsAt-read xs m f p q = record {
  from = λ w v b e.
      let (s, u, d, d') = bind-eq-ok m f w v e in
      (
        s,
        subst (λ l. Has l w.log v.log) (append-nil (xs s))
            (Has-trans [] (xs s) ((Performs-nil m p).from w u s d) ((q s).from u v b d')),
      );
}
