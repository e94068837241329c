-- ===== src/Machine/Adds.antt =====
-- The events that an action adds to the log, whether it returns or raises: one rule for each way
-- to build an action.
use mathlib.Core.List.{append_assoc}
use microstack.Base.{◌≡◌, refl, Bool, true, false, Option, none, some, List, [], ◌∷◌, ◌++◌, All}
use microstack.Base.{ap, ◌∙◌}
use microstack.Machine.{Event, History, World, Error}
use microstack.Machine.Monad.{
  Outcome, ok, raised, Action, pure, raise, lift, or_raise, branch, continue, ◌>>=◌, ◌>>◌, when,
  raise_if,
}

-- `new` are the events between two histories, and all of them satisfy `P`.
pub record Between {ℓ} (P : Event → Type ℓ) (old log : History) : Type ℓ where
  pub new : List Event
  pub eq : log ≡ new ++ old
  pub each : All P new

-- Every event that `m` adds satisfies `P`, from any world.
pub record Adds {ℓ κ} {A : Type ℓ} (P : Event → Type κ) (m : Action A) : Type κ where
  pub from : (w : World) → Between P w.log (m w).1.log

All-append {ℓ} : (P : Event → Type ℓ) (xs ys : List Event) → All P xs → All P ys → All P (xs ++ ys)
All-append P [] ys hx hy = hy
All-append P (x ∷ xs) ys hx hy = (hx.0, All-append P xs ys hx.1 hy)

module _ {ℓ} {P : Event → Type ℓ} where
  pub Between-refl : (log : History) → Between P log log
  Between-refl log = record { new = []; eq = refl; each = tt }

  pub Between-trans : {a b c : History} → Between P a b → Between P b c → Between P a c
  Between-trans {a} p q = record {
    new = q.new ++ p.new;
    eq = q.eq ∙ ap (λ l. q.new ++ l) p.eq ∙ sym_assoc;
    each = All-append P q.new p.new q.each p.each;
  }
    where
      sym_assoc : q.new ++ (p.new ++ a) ≡ (q.new ++ p.new) ++ a
      sym_assoc = rw append_assoc

module _ {ℓ κ} {A : Type ℓ} {P : Event → Type κ} where
  pub Adds-pure : (a : A) → Adds P (pure a)
  unfolding pure
  Adds-pure a = record { from = λ w. Between-refl w.log }

  pub Adds-raise : (e : Error) → Adds P (raise {A = A} e)
  unfolding raise
  Adds-raise e = record { from = λ w. Between-refl w.log }

  pub Adds-lift : (r : Outcome A) → Adds P (lift r)
  unfolding lift
  Adds-lift r = record { from = λ w. Between-refl w.log }

  pub Adds-or_raise : (o : Option A) (e : Error) → Adds P (or_raise o e)
  unfolding or_raise
  Adds-or_raise none e = record { from = λ w. Between-refl w.log }
  Adds-or_raise (some a) e = record { from = λ w. Between-refl w.log }

  pub Adds-branch : (b : Bool) (m n : Action A) → Adds P m → Adds P n → Adds P (branch b m n)
  unfolding branch
  Adds-branch true m n p q = record { from = λ w. p.from w }
  Adds-branch false m n p q = record { from = λ w. q.from w }

module _ {ℓ κ μ} {A : Type ℓ} {B : Type κ} {P : Event → Type μ} where
  pub Adds-continue :
      (r : Outcome A) (f : A → Action B) (w : World)
      → ((a : A) → Adds P (f a))
      → Between P w.log (continue r f w).1.log
  Adds-continue (ok a) f w h = (h a).from w
  Adds-continue (raised e) f w h = Between-refl w.log

  pub Adds-bind :
      (m : Action A) (f : A → Action B) → Adds P m → ((a : A) → Adds P (f a)) → Adds P (m >>= f)
  unfolding ◌>>=◌
  Adds-bind m f p q = record {
    from = λ w. Between-trans (p.from w) (let (r, w') = m w in Adds-continue r f w' q);
  }

pub Adds-then {ℓ κ μ} :
    {A : Type ℓ} {B : Type κ} {P : Event → Type μ} (m : Action A) (n : Action B)
    → Adds P m
    → Adds P n
    → Adds P (m >> n)
Adds-then m n p q = Adds-bind m (λ _. n) p (λ _. q)

pub Adds-when {ℓ} :
    {P : Event → Type ℓ} (b : Bool) (m : Action (Unit {0})) → Adds P m → Adds P (when b m)
unfolding when
Adds-when true m p = record { from = λ w. p.from w }
Adds-when false m p = record { from = λ w. Between-refl w.log }

pub Adds-raise_if {ℓ} : {P : Event → Type ℓ} (b : Bool) (e : Error) → Adds P (raise_if b e)
unfolding raise_if
Adds-raise_if true e = record { from = λ w. Between-refl w.log }
Adds-raise_if false e = record { from = λ w. Between-refl w.log }

pub ruleset adds_rules = (
  Adds-pure, Adds-raise, Adds-lift, Adds-or_raise, Adds-branch, Adds-bind, Adds-then, Adds-when,
  Adds-raise_if,
)
