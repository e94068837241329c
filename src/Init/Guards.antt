-- ===== src/Init/Guards.antt =====
-- Who may run `init`.
use microstack.Base.{ℕ, String, ◌≡◌, refl, true, false, List, [], ◌∷◌, codes, every, ◌==ℕ◌, strip}
use microstack.Machine.{Host, World, command, after_event, system_exit}
use microstack.Machine.Monad.{raised, ◌>>=◌}
use microstack.Shell.{check_output}
use microstack.Clustering.ConnectionString.{Codec}
use microstack.Init.{InitArgs}
use microstack.Init.Questions.{is_number, require_root, init}
use microstack.Uninstall.{remove}

abbrev pub id_command : List String
id_command = "id" ∷ "-u" ∷ []

-- The command `id` prints a number other than zero.
pub record IsUser (h : Host) (w : World) : Type 0 where
  pub runs : h.status w.log id_command ≡ 0
  pub number : is_number (strip (h.output w.log id_command)) ≡ true
  pub positive : every (λ c. c ==ℕ 48) (codes (strip (h.output w.log id_command))) ≡ false

module _ (h : Host) (w : World) (user : IsUser h w) where
  require_root-IsUser :
      require_root h w ≡ (raised (system_exit 1), after_event (command id_command) w)
  unfolding require_root check_output ◌>>=◌
  require_root-IsUser = rw (user.runs, user.number, user.positive) refl

  -- A user other than root can neither initialize nor remove the node: both commands ask for the
  -- user's id and exit with status 1, whatever their arguments.
  pub init-IsUser :
      (c : Codec) (fingerprint : List ℕ) (a : InitArgs) (args : List String)
      → (init h c fingerprint a w ≡ (raised (system_exit 1), after_event (command id_command) w))
        × (remove h args w ≡ (raised (system_exit 1), after_event (command id_command) w))
  unfolding init remove ◌>>=◌
  init-IsUser c fingerprint a args = (rw (require_root-IsUser) refl, rw (require_root-IsUser) refl)
