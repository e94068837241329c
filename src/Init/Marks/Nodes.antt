-- ===== src/Init/Marks/Nodes.antt =====
-- What the questions on the node and its networks do to its mark.
use microstack.Base.{String, ◌<>◌, ◌≡◌, refl, Bool, true, false}
use microstack.Base.Apart.{apart}
use microstack.Machine.{Host}
use microstack.Machine.Monad.{Action}
use microstack.Machine.Adds.{Adds, Adds-pure, Adds-then}
use microstack.Question.{Kind, boolean, string, Answer, base, with_code, skip}
use microstack.Question.Ask.{ask}
use microstack.Question.Adds.{Within, Adds-ask, Adds-save, Adds-load, Adds-input_func}
use microstack.Network.{
  gateway_yes, gateway_alone, gateway_clustered, gateway_question, cidr_question, forwarding_yes,
  forwarding_question, set_open, control_connections, compute_connections, connections, Connections,
  enable_ovn, store_connections, network_yes,
}
use microstack.Services.Adds.{Adds-load_rc}
use microstack.Services.Settings.{config_after}
use microstack.Init.Marks.{Unmarked, Unmarked-set, Unmarked-other_keys, other_keys, unmarked_rules}

module _ (h : Host) where
  -- A question that differs from the class in its code alone.
  pub Within-with_code :
      (kind : Kind) (text key : String) (interactive : Bool)
      (on_yes on_no after : Answer → Action (Unit {0}))
      → apart key "initialized=true" ≡ true
      → ((a : Answer) → Adds Unmarked (on_yes a))
      → ((a : Answer) → Adds Unmarked (on_no a))
      → ((a : Answer) → Adds Unmarked (after a))
      → Within h Unmarked (with_code (base h kind text key interactive) on_yes on_no after)
  Within-with_code kind text key interactive on_yes on_no after k y n f = record {
    loads = Adds-load h kind _ refl;
    asks = λ prompt. Adds-input_func h interactive prompt (λ s. refl);
    says_yes = y;
    says_no = n;
    follows = f;
    stores = λ a. Adds-save h kind _ a (λ s. Unmarked-set key ("=" <> s) k);
  }

  pub Unmarked-skip : (a : Answer) → Adds Unmarked (skip a)
  Unmarked-skip a = Adds-pure tt

  pub Unmarked-config_after : (a : Answer) → Adds Unmarked (config_after h a)
  unfolding config_after
  Unmarked-config_after a = Adds-then _ _ (search unmarked_rules) (Adds-load_rc h (λ path. refl))

  Unmarked-gateway_alone : (a : Answer) → Adds Unmarked (gateway_alone h a)
  unfolding gateway_alone apart other_keys
  Unmarked-gateway_alone a = Adds-then _ _ (Unmarked-other_keys h _ refl) (search unmarked_rules)

  Unmarked-gateway_clustered : Adds Unmarked (gateway_clustered h)
  unfolding gateway_clustered
  Unmarked-gateway_clustered = search unmarked_rules depth 40 fits 20000

  Unmarked-gateway_yes : (a : Answer) → Adds Unmarked (gateway_yes h a)
  unfolding gateway_yes
  Unmarked-gateway_yes a =
      search (unmarked_rules, Unmarked-gateway_alone, Unmarked-gateway_clustered) depth 40 fits
        20000

  Unmarked-connections : (role control_ip : String) → Adds Unmarked (connections h role control_ip)
  unfolding connections control_connections compute_connections set_open
  Unmarked-connections role control_ip = search unmarked_rules depth 40 fits 20000

  Unmarked-enable_ovn : Adds Unmarked (enable_ovn h)
  unfolding enable_ovn
  Unmarked-enable_ovn = search unmarked_rules depth 40 fits 20000

  Unmarked-store_connections : (c : Connections) → Adds Unmarked (store_connections h c)
  unfolding store_connections set_open apart
  Unmarked-store_connections c =
      search
        (
          unmarked_rules,
          Unmarked-set "config.network.ovn-nb-connection=" _ refl,
          Unmarked-set "config.network.ovn-sb-connection=" _ refl,
        )
        depth 40 fits 20000

  Unmarked-gateway : Adds Unmarked (ask h (gateway_question h))
  unfolding apart
  Unmarked-gateway = Adds-ask h _ (
      Within-with_code string _ _ false _ _ _ refl Unmarked-gateway_yes Unmarked-skip Unmarked-skip)

  Unmarked-cidr : Adds Unmarked (ask h (cidr_question h))
  unfolding apart
  Unmarked-cidr = Adds-ask h _ (
      Within-with_code string _ _ false _ _ _ refl (λ a. search unmarked_rules) Unmarked-skip
        Unmarked-skip)

  Unmarked-forwarding : Adds Unmarked (ask h (forwarding_question h))
  unfolding apart forwarding_yes
  Unmarked-forwarding = Adds-ask h _ (
      Within-with_code boolean _ _ false _ _ _ refl (λ a. search unmarked_rules) Unmarked-skip
        Unmarked-skip)

  pub Unmarked-network_yes : (a : Answer) → Adds Unmarked (network_yes h a)
  unfolding network_yes
  Unmarked-network_yes a =
      search
        (
          unmarked_rules, Unmarked-enable_ovn, Unmarked-gateway, Unmarked-cidr,
          Unmarked-connections, Unmarked-store_connections, Unmarked-forwarding,
        )
        depth 40 fits 20000
