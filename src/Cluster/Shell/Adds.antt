-- ===== src/Cluster/Shell/Adds.antt =====
-- What the wrappers of the tools of a cluster add to the log.
use microstack.Base.{String, List, ◌∷◌}
use microstack.Machine.{Event, command, Host}
use microstack.Machine.Adds.{Adds, adds_rules, Adds-bind}
use microstack.Shell.Laws.{Adds-popen}
use microstack.Cluster.Shell.{check_output, config_get}

module _ {ℓ} {P : Event → Type ℓ} (h : Host) where
  pub Adds-check_output : (args : List String) → P (command args) → Adds P (check_output h args)
  unfolding check_output
  Adds-check_output args p = Adds-bind _ _ (Adds-popen h args p) (λ a. search adds_rules)

  pub Adds-config_get :
      (keys : List String)
      → P (command ("snapctl" ∷ "get" ∷ "-t" ∷ keys))
      → Adds P (config_get h keys)
  unfolding config_get
  Adds-config_get keys p = search (adds_rules, Adds-check_output _ p)
