-- ===== src/Services/Returned.antt =====
-- What the setup of services is made of, where it returns.
use microstack.Base.{String, not, List}
use microstack.Base.Dict.{Dict}
use microstack.Machine.{Host}
use microstack.Machine.Monad.{Action}
use microstack.Machine.Returns.{Returns, Any, Returns-bind, Returns-when}
use microstack.Shell.Returned.{Returns-call}
use microstack.Services.{unless_call}

module _ {env : Dict String} (h : Host) where
  pub Returns-unless_call :
      (args : List String) (m : Action (Unit {0}))
      → Returns env Any m
      → Returns env Any (unless_call h args m)
  unfolding unless_call
  Returns-unless_call args m p =
      Returns-bind _ _ (Returns-call h args) (λ shown _. Returns-when (not shown) m p)
