-- ===== src/Machine/Returns.antt =====
-- Actions that return, from every world with a given environment, which they keep.
use microstack.Base.{String, Bool, true, false, ◌≡◌, refl, sym, subst}
use microstack.Base.Dict.{Dict}
use microstack.Machine.{World}
use microstack.Machine.Monad.{Outcome, ok, Action, pure, lift, when, ◌>>=◌, ◌>>◌}

-- The action returns a value with a property, and the environment stays.
pub record Returns {A : Type 0} (env : Dict String) (Q : A → Type 0) (m : Action A) : Type 0 where
  pub from :
      (w : World) → w.env ≡ env → (a : A) × (v : World) × (m w ≡ (ok a, v)) × Q a × (v.env ≡ env)

-- No property.
abbrev pub Any : {A : Type 0} → A → Type 0
Any a = Unit

module _ {env : Dict String} {A : Type 0} where
  pub Returns-pure : (a : A) → Returns env Any (pure a)
  unfolding pure
  Returns-pure a = record { from = λ w e. (a, w, refl, tt, e) }

  pub Returns-lift : (r : Outcome A) (a : A) → r ≡ ok a → Returns env (λ b. b ≡ a) (lift r)
  unfolding lift
  Returns-lift r a p = record { from = λ w e. (a, w, rw p refl, refl, e) }

module _ {env : Dict String} {A B : Type 0} where
  pub Returns-bind :
      {Q : A → Type 0} {R : B → Type 0} (m : Action A) (f : A → Action B)
      → Returns env Q m
      → ((a : A) → Q a → Returns env R (f a))
      → Returns env R (m >>= f)
  unfolding ◌>>=◌
  Returns-bind m f p q = record {
    from = λ w e.
        let (a, v, d, x, k) = p.from w e in
        let (b, u, d', y, k') = (q a x).from v k in (b, u, rw d d', y, k');
  }

  pub Returns-at :
      {R : B → Type 0} (a : A) (m : Action A) (f : A → Action B)
      → Returns env (λ b. b ≡ a) m
      → Returns env R (f a)
      → Returns env R (m >>= f)
  Returns-at {R} a m f p q = Returns-bind m f p (λ b e. subst (λ c. Returns env R (f c)) (sym e) q)

  pub Returns-then :
      {Q : A → Type 0} {R : B → Type 0} (m : Action A) (n : Action B)
      → Returns env Q m
      → Returns env R n
      → Returns env R (m >> n)
  Returns-then m n p q = Returns-bind m (λ _. n) p (λ _ _. q)

pub Returns-when :
    {env : Dict String} (b : Bool) (m : Action (Unit {0}))
    → Returns env Any m
    → Returns env Any (when b m)
unfolding when
Returns-when true m p = record { from = p.from }
Returns-when false m p = record { from = λ w e. (tt, w, refl, tt, e) }
