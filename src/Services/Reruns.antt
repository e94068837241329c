-- ===== src/Services/Reruns.antt =====
-- What the questions of a control node do on a node that was set up before.
use microstack.Base.{
  String, ◌<>◌, ◌==◌, ◌==ℕ◌, ◌≡◌, refl, Bool, false, ◌&&◌, List, [], ◌∷◌, strip, Bool-cases, inl,
  inr,
}
use microstack.Machine.{Event, command, History, Host, World}
use microstack.Machine.Monad.{Action, when, ◌>>=◌}
use microstack.Machine.Adds.{Adds, Between, adds_rules, Adds-then}
use microstack.Shell.{popen, call, check_output}
use microstack.Shell.Laws.{
  Adds-check, Adds-check_output, Adds-env_get, Adds-nc_wait, Adds-enable, Adds-restart, Adds-sleep,
}
use microstack.Question.{Answer}
use microstack.Services.{unless_call}
use microstack.Services.Adds.{Adds-for_each}
use microstack.Services.Compute.{placement_yes, nova_yes, flavor, flavors}
use microstack.Services.Storage.{cinder_yes, cinder_endpoint, glance_yes, fetch_cirros}
use microstack.Services.Networks.{neutron_yes}

-- `openstack NOUN create …`
abbrev pub creates : Event → Bool
creates (command (program ∷ noun ∷ verb ∷ rest)) = program == "openstack" && verb == "create"
creates _ = false

-- An event that makes nothing.
abbrev pub MakesNothing : Event → Type 0
MakesNothing e = creates e ≡ false

-- A cloud where everything that is asked for is there.
pub record Complete (h : Host) : Type 0 where
  pub shows :
      (log : History) (noun name : String)
      → h.status log ("openstack" ∷ noun ∷ "show" ∷ name ∷ []) ≡ 0
  pub lists :
      (log : History) (args : List String)
      → (strip (h.output log ("openstack" ∷ "endpoint" ∷ "list" ∷ args)) == "") ≡ false

module _ (h : Host) (all : Complete h) where
  -- What is shown is not made.
  Adds-unless_shown :
      {P : Event → Type 0} (noun name : String) (m : Action (Unit {0}))
      → P (command ("openstack" ∷ noun ∷ "show" ∷ name ∷ []))
      → Adds P (unless_call h ("openstack" ∷ noun ∷ "show" ∷ name ∷ []) m)
  unfolding unless_call call popen ◌>>=◌
  Adds-unless_shown noun name m p = record {
    from = λ w.
        rw (all.shows w.log noun name) (record { new = command _ ∷ []; eq = refl; each = (p, tt) });
  }

  MakesNothing-flavors : Adds MakesNothing (flavors h)
  unfolding flavors flavor
  MakesNothing-flavors = search (adds_rules, Adds-unless_shown) depth 12

  MakesNothing-placement : (a : Answer) → Adds MakesNothing (placement_yes h a)
  unfolding placement_yes
  MakesNothing-placement a =
      search
        (
          adds_rules,
          Adds-unless_shown,
          Adds-check {P = MakesNothing} h,
          Adds-enable {P = MakesNothing} h,
        )
        depth 12

  MakesNothing-neutron : (a : Answer) → Adds MakesNothing (neutron_yes h a)
  unfolding neutron_yes
  MakesNothing-neutron a =
      search
        (
          adds_rules,
          Adds-unless_shown,
          Adds-check {P = MakesNothing} h,
          Adds-enable {P = MakesNothing} h,
          Adds-env_get,
          Adds-nc_wait {P = MakesNothing} h,
          Adds-sleep {P = MakesNothing} h,
        )
        depth 40 fits 20000

  MakesNothing-glance : (a : Answer) → Adds MakesNothing (glance_yes h a)
  unfolding glance_yes fetch_cirros
  MakesNothing-glance a =
      search
        (
          adds_rules,
          Adds-unless_shown,
          Adds-check {P = MakesNothing} h,
          Adds-enable {P = MakesNothing} h,
          Adds-env_get,
          Adds-nc_wait {P = MakesNothing} h,
          Adds-sleep {P = MakesNothing} h,
          Adds-for_each,
        )
        depth 40 fits 20000

  MakesNothing-nova : (a : Answer) → Adds MakesNothing (nova_yes h a)
  unfolding nova_yes
  MakesNothing-nova a =
      search
        (
          adds_rules,
          Adds-unless_shown,
          Adds-check {P = MakesNothing} h,
          Adds-check_output {P = MakesNothing} h,
          Adds-enable {P = MakesNothing} h,
          Adds-restart {P = MakesNothing} h,
          Adds-env_get,
          Adds-nc_wait {P = MakesNothing} h,
          Adds-sleep {P = MakesNothing} h,
          Adds-for_each,
          MakesNothing-flavors,
        )
        depth 40 fits 20000

  -- An endpoint that is listed is not made.
  listed-MakesNothing :
      (args : List String) (m : Action (Unit {0})) (w : World)
      → Between MakesNothing w.log
          ((check_output h ("openstack" ∷ "endpoint" ∷ "list" ∷ args) >>= λ listed.
              when (listed == "") m)
            w).1.log
  unfolding check_output popen ◌>>=◌
  listed-MakesNothing args m w =
      elim (Bool-cases (h.status w.log ("openstack" ∷ "endpoint" ∷ "list" ∷ args) ==ℕ 0)) [
        | inl e ↦
            rw (e, all.lists w.log args)
              (record { new = command _ ∷ []; eq = refl; each = (refl, tt) })
        | inr e ↦ rw e (record { new = command _ ∷ []; eq = refl; each = (refl, tt) })
      ]

  MakesNothing-cinder_endpoint :
      (control_ip endpoint version : String)
      → Adds MakesNothing (cinder_endpoint h control_ip endpoint version)
  unfolding cinder_endpoint
  MakesNothing-cinder_endpoint control_ip endpoint version =
      Adds-then _ _ (Adds-unless_shown "service" ("cinder" <> version) _ refl)
        (record { from = λ w. listed-MakesNothing _ _ w })

  MakesNothing-cinder : (a : Answer) → Adds MakesNothing (cinder_yes h a)
  unfolding cinder_yes
  MakesNothing-cinder a =
      search
        (
          adds_rules,
          Adds-unless_shown,
          Adds-check {P = MakesNothing} h,
          Adds-enable {P = MakesNothing} h,
          Adds-env_get,
          Adds-for_each,
          MakesNothing-cinder_endpoint,
        )
        depth 40 fits 20000

  -- On a cloud where every user, service, flavor, image, network, subnet and router that is asked
  -- for is shown, and every endpoint is listed, the setup of Placement, Nova, Cinder, Neutron and
  -- Glance runs no `openstack … create`, whether it returns or raises.
  pub rerun-MakesNothing :
      (a : Answer) (w : World)
      → Between MakesNothing w.log (placement_yes h a w).1.log
        × Between MakesNothing w.log (nova_yes h a w).1.log
        × Between MakesNothing w.log (cinder_yes h a w).1.log
        × Between MakesNothing w.log (neutron_yes h a w).1.log
        × Between MakesNothing w.log (glance_yes h a w).1.log
  rerun-MakesNothing a w = (
    (MakesNothing-placement a).from w,
    (MakesNothing-nova a).from w,
    (MakesNothing-cinder a).from w,
    (MakesNothing-neutron a).from w,
    (MakesNothing-glance a).from w,
  )
