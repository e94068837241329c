-- ===== src/Machine/Extends.antt =====
-- Actions that raise alike.
use microstack.Base.{◌≡◌, refl}
use microstack.Machine.{World, Error}
use microstack.Machine.Monad.{Outcome, ok, raised, Action, continue, ◌>>=◌}

-- What raises in the first action raises in the second, after the same steps.
pub record Extends {ℓ} {A : Type ℓ} (m m' : Action A) : Type ℓ where
  pub same : (w v : World) (x : Error) → m w ≡ (raised x, v) → m' w ≡ (raised x, v)

pub Extends-bind :
    {A B : Type 0} (m : Action A) (f f' : A → Action B)
    → ((a : A) → Extends (f a) (f' a))
    → Extends (m >>= f) (m >>= f')
unfolding ◌>>=◌
Extends-bind {A} {B} m f f' p = record { same = λ w v x e. go (m w).0 (m w).1 v x e }
  where
    go :
        (r : Outcome A) (u v : World) (x : Error)
        → continue r f u ≡ (raised x, v)
        → continue r f' u ≡ (raised x, v)
    go (ok a) u v x e = (p a).same u v x e
    go (raised y) u v x e = cc

-- What raises at once raises with anything after it.
pub Extends-first : {A : Type 0} (m : Action A) (f : A → Action A) → Extends m (m >>= f)
unfolding ◌>>=◌
Extends-first m f = record { same = λ w v x e. rw e refl }
