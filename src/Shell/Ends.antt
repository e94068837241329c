-- ===== src/Shell/Ends.antt =====
-- The wrappers of `Shell` that run one command end.
use microstack.Base.{String, List}
use microstack.Machine.{Host}
use microstack.Machine.Ends.{Ends, Ends-pure, Ends-raise_if, Ends-bind, Ends-then}
use microstack.Shell.{popen, check, check_output, sleep}

module _ (h : Host) where
  Ends-popen : (args : List String) → Ends (popen h args)
  unfolding popen
  Ends-popen args = record { from = λ w e. cc }

  pub Ends-check : (args : List String) → Ends (check h args)
  unfolding check
  Ends-check args = Ends-bind _ _ (Ends-popen args) (λ a. Ends-raise_if _ _ (λ e. cc))

  pub Ends-check_output : (args : List String) → Ends (check_output h args)
  unfolding check_output
  Ends-check_output args =
      Ends-bind _ _ (Ends-popen args)
        (λ a. Ends-then _ _ (Ends-raise_if _ _ (λ e. cc)) (Ends-pure _))

  pub Ends-sleep : Ends (sleep h)
  unfolding sleep
  Ends-sleep = record { from = λ w e. cc }
