-- ===== src/Init/Marks/Controls.antt =====
-- What the questions of a control node do to the mark of the node.
use microstack.Base.{String, refl, List, [], ◌∷◌}
use microstack.Base.Apart.{apart}
use microstack.Json.{Json}
use microstack.Machine.{Host}
use microstack.Machine.Adds.{Adds, adds_rules, Adds-then}
use microstack.Question.{Answer}
use microstack.Services.{create_user, url_of}
use microstack.Services.Start.{
  rabbit_yes, rabbit_no, database_yes, database_no, wait_rabbit, configure_rabbit, wait_database,
  create_db, create_each, create_dbs, bootstrap,
}
use microstack.Services.Compute.{
  placement_yes, placement_no, nova_yes, nova_no, spice_yes, spice_no, flavor, flavors,
  call_endpoints,
}
use microstack.Services.Compute.Virtualization.{
  hypervisor_yes, hypervisor_no, maybe_enable_emulation, is_hw_virt_supported,
}
use microstack.Services.Storage.{
  cinder_yes, cinder_no, cinder_endpoint, lvm_yes, lvm_no, glance_yes, glance_no, fetch_cirros,
}
use microstack.Services.Networks.{neutron_yes, neutron_no}
use microstack.Services.Networks.Rules.{security_yes, make_rules}
use microstack.Init.Marks.{
  Unmarked, Unmarked-set, unmarked_rules, Unmarked-check, Unmarked-check_output,
  Unmarked-unless_call, Unmarked-enable, Unmarked-restart, Unmarked-nc_wait, Unmarked-sleep,
}
use microstack.Shell.Laws.{Adds-env_get}
use microstack.Services.Adds.{Adds-for_each}

-- What the setup of a service is made of.
pub ruleset service_rules = (
  adds_rules, Unmarked-check, Unmarked-check_output, Unmarked-unless_call, Unmarked-enable,
  Unmarked-restart, Unmarked-nc_wait, Unmarked-sleep, Adds-env_get, Adds-for_each,
)

module _ (h : Host) where
  pub Unmarked-rabbit_yes : (a : Answer) → Adds Unmarked (rabbit_yes h a)
  unfolding rabbit_yes wait_rabbit configure_rabbit
  Unmarked-rabbit_yes a = search unmarked_rules depth 40 fits 20000

  pub Unmarked-rabbit_no : (a : Answer) → Adds Unmarked (rabbit_no h a)
  unfolding rabbit_no
  Unmarked-rabbit_no a = search unmarked_rules depth 40 fits 20000

  pub Unmarked-create_user : (name : String) → Adds Unmarked (create_user h name)
  unfolding create_user
  Unmarked-create_user name = search unmarked_rules depth 40 fits 20000

  pub Unmarked-url_of : (key rest : String) → Adds Unmarked (url_of key rest)
  unfolding url_of
  Unmarked-url_of key rest = search unmarked_rules depth 40 fits 20000

  Unmarked-create_db : (j : Json) (user db : String) → Adds Unmarked (create_db h j user db)
  unfolding create_db
  Unmarked-create_db j user db = search unmarked_rules depth 40 fits 20000

  Unmarked-create_each :
      (j : Json) (dbs : List (String × String)) → Adds Unmarked (create_each h j dbs)
  unfolding create_each
  Unmarked-create_each j [] = search adds_rules
  Unmarked-create_each j ((user, db) ∷ rest) =
      Adds-then _ _ (Unmarked-create_db j user db) (Unmarked-create_each j rest)

  pub Unmarked-database_yes : (a : Answer) → Adds Unmarked (database_yes h a)
  unfolding database_yes wait_database create_dbs bootstrap
  Unmarked-database_yes a =
      search (unmarked_rules, Unmarked-create_each, Unmarked-url_of) depth 40 fits 20000

  pub Unmarked-database_no : (a : Answer) → Adds Unmarked (database_no h a)
  unfolding database_no
  Unmarked-database_no a = search unmarked_rules depth 40 fits 20000

  pub Unmarked-call_endpoints :
      (service url_end : String) → Adds Unmarked (call_endpoints h service url_end)
  unfolding call_endpoints
  Unmarked-call_endpoints service url_end =
      search (unmarked_rules, Unmarked-url_of) depth 40 fits 20000

  pub Unmarked-flavors : Adds Unmarked (flavors h)
  unfolding flavors flavor
  Unmarked-flavors = search (unmarked_rules) depth 40 fits 20000

  pub Unmarked-placement_yes : (a : Answer) → Adds Unmarked (placement_yes h a)
  unfolding placement_yes
  Unmarked-placement_yes a =
      search (unmarked_rules, Unmarked-create_user, Unmarked-call_endpoints) depth 40 fits 20000

  pub Unmarked-placement_no : (a : Answer) → Adds Unmarked (placement_no h a)
  unfolding placement_no
  Unmarked-placement_no a = search (unmarked_rules) depth 40 fits 20000

  pub Unmarked-nova_yes : (a : Answer) → Adds Unmarked (nova_yes h a)
  unfolding nova_yes
  Unmarked-nova_yes a =
      Adds-then _ _ (search (service_rules, Unmarked-create_user) depth 40 fits 20000) (
        Adds-then _ _ (search service_rules)
          (search (service_rules, Unmarked-flavors, Unmarked-call_endpoints) depth 40 fits 20000))

  pub Unmarked-nova_no : (a : Answer) → Adds Unmarked (nova_no h a)
  unfolding nova_no
  Unmarked-nova_no a = search (unmarked_rules) depth 40 fits 20000

  pub Unmarked-spice_yes : (a : Answer) → Adds Unmarked (spice_yes h a)
  unfolding spice_yes
  Unmarked-spice_yes a = search (unmarked_rules) depth 40 fits 20000

  pub Unmarked-spice_no : (a : Answer) → Adds Unmarked (spice_no h a)
  unfolding spice_no
  Unmarked-spice_no a = search (unmarked_rules) depth 40 fits 20000

  Unmarked-is_hw_virt_supported : Adds Unmarked (is_hw_virt_supported h)
  unfolding is_hw_virt_supported
  Unmarked-is_hw_virt_supported = search (unmarked_rules) depth 40 fits 20000

  pub Unmarked-hypervisor_yes : (a : Answer) → Adds Unmarked (hypervisor_yes h a)
  unfolding hypervisor_yes maybe_enable_emulation apart
  Unmarked-hypervisor_yes a =
      search
        (unmarked_rules, Unmarked-is_hw_virt_supported, Unmarked-set "config.nova.virt-type" _ refl)
        depth 40 fits 20000

  pub Unmarked-hypervisor_no : (a : Answer) → Adds Unmarked (hypervisor_no h a)
  unfolding hypervisor_no
  Unmarked-hypervisor_no a = search (unmarked_rules) depth 40 fits 20000

  Unmarked-cinder_endpoint :
      (control_ip endpoint version : String)
      → Adds Unmarked (cinder_endpoint h control_ip endpoint version)
  unfolding cinder_endpoint
  Unmarked-cinder_endpoint control_ip endpoint version = search (unmarked_rules) depth 40 fits 20000

  pub Unmarked-cinder_yes : (a : Answer) → Adds Unmarked (cinder_yes h a)
  unfolding cinder_yes
  Unmarked-cinder_yes a =
      search (unmarked_rules, Unmarked-create_user, Unmarked-cinder_endpoint) depth 40 fits 20000

  pub Unmarked-cinder_no : (a : Answer) → Adds Unmarked (cinder_no h a)
  unfolding cinder_no
  Unmarked-cinder_no a = search (unmarked_rules) depth 40 fits 20000

  pub Unmarked-lvm_yes : (a : Answer) → Adds Unmarked (lvm_yes h a)
  unfolding lvm_yes apart
  Unmarked-lvm_yes a =
      search
        (unmarked_rules, Unmarked-set "config.cinder.setup-loop-based-cinder-lvm-backend=" _ refl)
        depth 40 fits 20000

  pub Unmarked-lvm_no : (a : Answer) → Adds Unmarked (lvm_no h a)
  unfolding lvm_no apart
  Unmarked-lvm_no a =
      search (unmarked_rules, Unmarked-set "config.cinder.lvm.setup-file-backed-lvm=" _ refl) depth
        40 fits 20000

  pub Unmarked-glance_yes : (a : Answer) → Adds Unmarked (glance_yes h a)
  unfolding glance_yes fetch_cirros
  Unmarked-glance_yes a =
      search (unmarked_rules, Unmarked-create_user, Unmarked-url_of) depth 40 fits 20000

  pub Unmarked-glance_no : (a : Answer) → Adds Unmarked (glance_no h a)
  unfolding glance_no
  Unmarked-glance_no a = search (unmarked_rules) depth 40 fits 20000

  pub Unmarked-neutron_yes : (a : Answer) → Adds Unmarked (neutron_yes h a)
  unfolding neutron_yes
  Unmarked-neutron_yes a =
      Adds-then _ _ (search (service_rules, Unmarked-create_user) depth 40 fits 20000) (
        Adds-then _ _ (search (service_rules, Unmarked-call_endpoints) depth 40 fits 20000)
          (search service_rules depth 40 fits 20000))

  pub Unmarked-neutron_no : (a : Answer) → Adds Unmarked (neutron_no h a)
  unfolding neutron_no
  Unmarked-neutron_no a = search (unmarked_rules) depth 40 fits 20000

  pub Unmarked-security_yes : (a : Answer) → Adds Unmarked (security_yes h a)
  unfolding security_yes make_rules
  Unmarked-security_yes a = search (unmarked_rules) depth 40 fits 20000
