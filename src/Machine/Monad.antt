-- ===== src/Machine/Monad.antt =====
-- Actions: state and exceptions. What was done before a raise stays done.
use microstack.Base.{◌≡◌, refl, Bool, true, false, Option, none, some}
use microstack.Machine.{World, Error}

pub data Outcome {ℓ} (A : Type ℓ) : Type ℓ where
  ok : A → Outcome A
  raised : Error → Outcome A

abbrev pub Action {ℓ} : Type ℓ → Type ℓ
Action A = World → Outcome A × World

module _ {ℓ} {A : Type ℓ} where
  unfoldable pub pure : A → Action A
  pure a w = (ok a, w)

  unfoldable pub raise : Error → Action A
  raise e w = (raised e, w)

  unfoldable pub lift : Outcome A → Action A
  lift r w = (r, w)

  -- `if b: m` with `else: n`
  unfoldable pub branch : Bool → Action A → Action A → Action A
  branch true m n w = m w
  branch false m n w = n w

  -- A value that may be missing, or an exception.
  unfoldable pub or_raise : Option A → Error → Action A
  or_raise none e w = (raised e, w)
  or_raise (some a) e w = (ok a, w)

-- A test that raises.
unfoldable pub raise_if : Bool → Error → Action (Unit {0})
raise_if true e w = (raised e, w)
raise_if false e w = (ok tt, w)

-- `if b: m`
unfoldable pub when : Bool → Action (Unit {0}) → Action (Unit {0})
when true m w = m w
when false m w = (ok tt, w)

module _ {ℓ κ} {A : Type ℓ} {B : Type κ} where
  abbrev pub continue : Outcome A → (A → Action B) → Action B
  continue (ok a) f w = f a w
  continue (raised e) f w = (raised e, w)

  infixl 5 ◌>>=◌ ◌>>◌
  -- Opening this opens the other ways to build an action too.
  unfoldable pub ◌>>=◌ : Action A → (A → Action B) → Action B
  unfolding pure raise lift or_raise branch raise_if when
  ◌>>=◌ m f w = let (r, w') = m w in continue r f w'

  abbrev pub ◌>>◌ : Action A → Action B → Action B
  m >> k = m >>= λ _. k

  -- A bind that returns: both parts have returned.
  pub bind-eq-ok :
      (m : Action A) (f : A → Action B) (w w' : World) {b : B}
      → (m >>= f) w ≡ (ok b, w')
      → (a : A) × (v : World) × (m w ≡ (ok a, v)) × (f a v ≡ (ok b, w'))
  unfolding ◌>>=◌
  bind-eq-ok m f w w' {b} e = go (m w) refl e
    where
      go :
          (r : Outcome A × World)
          → m w ≡ r
          → continue r.0 f r.1 ≡ (ok b, w')
          → (a : A) × (v : World) × (m w ≡ (ok a, v)) × (f a v ≡ (ok b, w'))
      go (ok a, v) p q = (a, v, p, q)
      go (raised x, v) p q = cc

-- A pure function that may raise, and what follows it.
unfoldable pub and_then {ℓ κ} : {A : Type ℓ} {B : Type κ} → Outcome A → (A → Outcome B) → Outcome B
and_then (ok a) f = f a
and_then (raised e) f = raised e

-- A chain that returns: both parts have returned.
pub and_then-eq-ok {ℓ κ} :
    {A : Type ℓ} {B : Type κ} (r : Outcome A) (f : A → Outcome B) {b : B}
    → and_then r f ≡ ok b
    → (a : A) × (r ≡ ok a) × (f a ≡ ok b)
unfolding and_then
and_then-eq-ok (ok a) f e = (a, refl, e)
and_then-eq-ok (raised x) f e = absurd (cc)

module _ {ℓ} {A : Type ℓ} where
  pub or_raise-eq-ok :
      (o : Option A) (x : Error) (w w' : World) (a : A)
      → or_raise o x w ≡ (ok a, w')
      → (o ≡ some a) × (w' ≡ w)
  unfolding or_raise
  or_raise-eq-ok (some b) x w w' a e = (cc, cc)
  or_raise-eq-ok none x w w' a e = absurd (cc)

  pub lift-eq-ok :
      (r : Outcome A) (w w' : World) (a : A) → lift r w ≡ (ok a, w') → (r ≡ ok a) × (w' ≡ w)
  unfolding lift
  lift-eq-ok r w w' a e = (cc, cc)
