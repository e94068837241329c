-- ===== src/Tests/Scripts.antt =====
-- The scripts, the removal, the waits and the addresses on concrete inputs.
use microstack.Base.{
  List, ◌↔◌, ℕ, zero, suc, ◌<◌, String, ◌<>◌, ◌≡◌, refl, true, false, none, some, [], ◌∷◌, arith,
}
use microstack.Machine.{Host, History, connected, slept}
use microstack.Machine.Monad.{Outcome, ok}
use microstack.Machine.Adds.{Between}
use microstack.Shell.{nc_wait}
use microstack.Shell.Waits.{OpensAfter, rounds_of, nc_wait-OpensAfter}
use microstack.Addresses.{cidr_of}
use microstack.Addresses.Ranges.{no_dot, cidr_of-join_dots}
use microstack.Uninstall.{remove}
use microstack.Uninstall.Harmless.{Spares, remove-Spares}
use microstack.Scripts.Paths.{updated}
use microstack.Scripts.Paths.Again.{updated-updated}
use microstack.Tests.{new_world, calm}

-- The port opens once a round has failed.
abbrev slow : Host
slow = record (calm "" "") { is_open = λ log addr port. opened log }
  where
    opened : History → microstack.Base.Bool
    opened [] = false
    opened (e ∷ log) = true

slow-OpensAfter : OpensAfter slow "10.0.0.1" "3306" 1 []
slow-OpensAfter = record { reads = refl; dials = λ k l. refl; closed = closes; opens = refl }
  where
    closes :
        (k : ℕ)
        → k < 1
        → slow.is_open (rounds_of (connected "10.0.0.1" "3306") k []) "10.0.0.1" "3306" ≡ false
    closes zero l = refl
    closes (suc k) l = absurd (omega arith)

nc_wait-OpensAfter_example : nc_wait slow "10.0.0.1" "3306" new_world ≡ (
  ok tt,
  record { log = connected "10.0.0.1" "3306" ∷ slept ∷ connected "10.0.0.1" "3306" ∷ []; env = [] },
)
nc_wait-OpensAfter_example =
    nc_wait-OpensAfter slow "10.0.0.1" "3306" 1 new_world (omega arith) slow-OpensAfter

cidr_of-join_dots_example : cidr_of "10.20.20.1" 24 ≡ "10.20.20.0/24"
unfolding no_dot microstack.Addresses.join_dots microstack.Base.decimal
cidr_of-join_dots_example = cidr_of-join_dots ("10" ∷ "20" ∷ "20" ∷ []) "1" 24 refl

remove-Spares_example :
    Between Spares [] (remove (calm "0" "yes") ("remove" ∷ "--auto" ∷ []) new_world).1.log
remove-Spares_example = remove-Spares (calm "0" "yes") ("remove" ∷ "--auto" ∷ []) new_world

-- The parser of a run of `microstack launch cirros`.
abbrev parser : List String → Outcome String
parser args = ok "launch"

abbrev shifted : List String
shifted = "launch" ∷ "cirros" ∷ []

updated-updated_example :
    updated (updated "  PATH: a\n  LD_LIBRARY_PATH: b") ≡ updated "  PATH: a\n  LD_LIBRARY_PATH: b"
updated-updated_example = updated-updated "  PATH: a\n  LD_LIBRARY_PATH: b"
