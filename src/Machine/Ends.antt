-- ===== src/Machine/Ends.antt =====
-- Actions that end: they return or raise an exception of the program, and do not poll for longer
-- than the host is patient.
use microstack.Base.{◌≡◌, ◌≢◌, refl, ap, ◌∙◌, Bool, true, false, Option, none, some, arith}
use microstack.Machine.{World, Error, still_waiting}
use microstack.Machine.Monad.{
  Outcome, ok, raised, Action, pure, raise, lift, or_raise, branch, raise_if, continue, ◌>>=◌, ◌>>◌,
}

pub record Ends {ℓ} {A : Type ℓ} (m : Action A) : Type ℓ where
  pub from : (w : World) → (m w).0 ≢ raised still_waiting

module _ {ℓ} {A : Type ℓ} where
  pub Ends-pure : (a : A) → Ends (pure a)
  unfolding pure
  Ends-pure a = record { from = λ w e. cc }

  pub Ends-raise : (x : Error) → x ≢ still_waiting → Ends (raise {A = A} x)
  unfolding raise
  Ends-raise x n = record { from = λ w e. ground (arith, n) }

  pub Ends-lift : (r : Outcome A) → r ≢ raised still_waiting → Ends (lift r)
  unfolding lift
  Ends-lift r n = record { from = λ w e. n e }

  pub Ends-or_raise : (o : Option A) (x : Error) → x ≢ still_waiting → Ends (or_raise o x)
  unfolding or_raise
  Ends-or_raise none x n = record { from = λ w e. ground (arith, n) }
  Ends-or_raise (some a) x n = record { from = λ w e. cc }

  pub Ends-branch : (b : Bool) (m n : Action A) → Ends m → Ends n → Ends (branch b m n)
  unfolding branch
  Ends-branch true m n p q = record { from = λ w. p.from w }
  Ends-branch false m n p q = record { from = λ w. q.from w }

pub Ends-raise_if : (b : Bool) (x : Error) → x ≢ still_waiting → Ends (raise_if b x)
unfolding raise_if
Ends-raise_if true x n = record { from = λ w e. ground (arith, n) }
Ends-raise_if false x n = record { from = λ w e. cc }

raised-eq {ℓ} : {A : Type ℓ} (x y : Error) → ◌≡◌ {A = Outcome A} (raised x) (raised y) → x ≡ y
raised-eq x y e = cc

module _ {ℓ κ} {A : Type ℓ} {B : Type κ} where
  -- What follows may use that the first part has returned.
  pub Ends-bind_from :
      (m : Action A) (f : A → Action B) (w : World)
      → (m w).0 ≢ raised still_waiting
      → ((a : A) (v : World) → m w ≡ (ok a, v) → (f a v).0 ≢ raised still_waiting)
      → ((m >>= f) w).0 ≢ raised still_waiting
  unfolding ◌>>=◌
  Ends-bind_from m f w p q = go (m w) refl
    where
      go : (r : Outcome A × World) → m w ≡ r → (continue r.0 f r.1).0 ≢ raised still_waiting
      go (ok a, v) e = q a v e
      go (raised x, v) e = λ d.
          p (
            ap (λ (r : Outcome A × World). r.0) e ∙ ap raised (raised-eq {A = B} x still_waiting d))

  pub Ends-bind :
      (m : Action A) (f : A → Action B) → Ends m → ((a : A) → Ends (f a)) → Ends (m >>= f)
  Ends-bind m f p q = record { from = λ w. Ends-bind_from m f w (p.from w) (λ a v e. (q a).from v) }

pub Ends-then {ℓ κ} :
    {A : Type ℓ} {B : Type κ} (m : Action A) (n : Action B) → Ends m → Ends n → Ends (m >> n)
Ends-then m n p q = Ends-bind m (λ _. n) p (λ _. q)
