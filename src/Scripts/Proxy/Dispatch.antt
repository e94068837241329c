-- ===== src/Scripts/Proxy/Dispatch.antt =====
-- Which command a subcommand calls.
use microstack.Base.{String, ◌≡◌, refl, ap, ◌∙◌, ◌↔◌, arith, eq_iff, Option, List, [], ◌∷◌}
use microstack.Machine.Monad.{Outcome, ok, and_then, and_then-eq-ok}
use microstack.Scripts.Proxy.{
  Command, init, add_compute, launch, command_of, command_arguments, shift, dispatch, main,
}

-- The subcommand of a command.
abbrev pub name_of : Command → String
name_of init = "init"
name_of add_compute = "add-compute"
name_of launch = "launch"

command_of-name_of : (c : Command) → command_of (name_of c) ≡ Option.some c
unfolding command_of
command_of-name_of init = refl
command_of-name_of add_compute = refl
command_of-name_of launch = refl

command_of-eq_some :
    (name : String) (c : Command) → command_of name ≡ Option.some c → name ≡ name_of c
unfolding command_of
command_of-eq_some name init e = (eq_iff name "init").0 (ground (arith, e))
command_of-eq_some name add_compute e = (eq_iff name "add-compute").0 (ground (arith, e))
command_of-eq_some name launch e = (eq_iff name "launch").0 (ground (arith, e))

module _ (parse_args : List String → Outcome String) (program name : String)
    (rest argv' : List String) (c : Command) where
  called :
      parse_args (name ∷ []) ≡ ok (name_of c)
      → argv' ≡ name ∷ rest
      → main parse_args (program ∷ name ∷ rest) ≡ ok (c, argv')
  unfolding main command_arguments dispatch shift and_then
  called e a = rw (e, command_of-name_of c, a) refl

  dispatched :
      (o : Option Command)
      → dispatch o (program ∷ name ∷ rest) ≡ ok (c, argv')
      → (o ≡ Option.some c) × (argv' ≡ name ∷ rest)
  unfolding dispatch shift and_then
  dispatched Option.none e = absurd (cc)
  dispatched (Option.some d) e = (cc, cc)

  parsed :
      main parse_args (program ∷ name ∷ rest) ≡ ok (c, argv')
      → (parse_args (name ∷ []) ≡ ok (name_of c)) × (argv' ≡ name ∷ rest)
  unfolding main command_arguments
  parsed e =
      let (n, p, q) = and_then-eq-ok (parse_args (name ∷ [])) _ e in
      let (o, a) = dispatched (command_of n) q in (p ∙ ap ok (command_of-eq_some n c o), a)

  -- With at least one argument, a command is called with some arguments exactly when the parser
  -- takes the first argument for its name, one of init, add-compute and launch, and the arguments
  -- are those after the name of the program.
  pub main_iff :
      (main parse_args (program ∷ name ∷ rest) ≡ ok (c, argv'))
      ↔ ((parse_args (name ∷ []) ≡ ok (name_of c)) × (argv' ≡ name ∷ rest))
  main_iff = (parsed, λ x. called x.0 x.1)
