-- ===== src/Init/Marks/Early.antt =====
-- A run of `init` that fails before PostSetup.
use microstack.Base.{ℕ, String, ◌≡◌, refl, subst, Bool, true, false, not, List, [], ◌∷◌, ◌++◌, All}
use microstack.Base.Apart.{apart}
use microstack.Machine.{Host, World, Error}
use microstack.Machine.Monad.{raised, Action, pure, branch, ◌>>=◌, ◌>>◌}
use microstack.Machine.Adds.{Adds, Between, Adds-pure, Adds-then, Adds-bind, Adds-branch}
use microstack.Machine.Extends.{Extends, Extends-bind}
use microstack.Question.{boolean, string, auto, Answer, Question, base, with_code, skip, save}
use microstack.Services.Settings.{config_after, extra_services_question}
use microstack.Question.Ask.{ask}
use microstack.Question.Adds.{Within, Adds-ask, Adds-load, Adds-input_func}
use microstack.Clustering.ConnectionString.{Codec}
use microstack.Clustering.Node.{clustering_no, clustering_question}
use microstack.Network.{network_question}
use microstack.Init.{InitArgs, is_given, process_init_args}
use microstack.Init.Questions.{
  require_root, interaction, join_first, earlier_questions, post_question, ask_all, init,
}
use microstack.Init.Marks.{
  Unmarked, unmarked_rules, Unmarked-other_keys, Unmarked-disable, other_keys,
}
use microstack.Init.Marks.Controls.{
  Unmarked-rabbit_yes, Unmarked-rabbit_no, Unmarked-database_yes, Unmarked-database_no,
  Unmarked-placement_yes, Unmarked-placement_no, Unmarked-nova_yes, Unmarked-nova_no,
  Unmarked-hypervisor_yes, Unmarked-hypervisor_no, Unmarked-spice_yes, Unmarked-spice_no,
  Unmarked-neutron_yes, Unmarked-neutron_no, Unmarked-glance_yes, Unmarked-glance_no,
  Unmarked-security_yes, Unmarked-cinder_yes, Unmarked-cinder_no, Unmarked-lvm_yes, Unmarked-lvm_no,
}
use microstack.Init.Marks.Nodes.{
  Within-with_code, Unmarked-skip, Unmarked-config_after, Unmarked-network_yes,
}
use microstack.Init.Marks.Clusters.{Unmarked-clustering_yes}

Extends-ask_all :
    (h : Host) (qs rest : List Question) → Extends (ask_all h qs) (ask_all h (qs ++ rest))
unfolding ask_all pure
Extends-ask_all h [] rest = record { same = λ w v x e. absurd (cc) }
Extends-ask_all h (q ∷ qs) rest = Extends-bind (ask h q) _ _ (λ a. Extends-ask_all h qs rest)

module _ (h : Host) where
  pub Adds-ask_all :
      (qs : List Question) → All (Within h Unmarked) qs → Adds Unmarked (ask_all h qs)
  unfolding ask_all
  Adds-ask_all [] p = Adds-pure tt
  Adds-ask_all (q ∷ qs) p = Adds-then _ _ (Adds-ask h q p.0) (Adds-ask_all qs p.1)

  Within-network : Within h Unmarked (network_question h)
  unfolding save
  Within-network = record {
    loads = Adds-load h auto _ refl;
    asks = λ prompt. Adds-input_func h false prompt (λ s. refl);
    says_yes = Unmarked-network_yes h;
    says_no = Unmarked-skip h;
    follows = Unmarked-skip h;
    stores = λ a. Adds-pure tt;
  }

  config :
      (text key : String) (on_yes : Answer → Action (Unit {0}))
      → apart key "initialized=true" ≡ true
      → ((a : Answer) → Adds Unmarked (on_yes a))
      → Within h Unmarked (with_code (base h string text key false) on_yes skip (config_after h))
  config text key on_yes k p =
      Within-with_code h string text key false _ _ _ k p (Unmarked-skip h) (Unmarked-config_after h)

  service :
      (key : String) (on_yes on_no : Answer → Action (Unit {0}))
      → apart key "initialized=true" ≡ true
      → ((a : Answer) → Adds Unmarked (on_yes a))
      → ((a : Answer) → Adds Unmarked (on_no a))
      → Within h Unmarked (with_code (base h boolean "(required)" key false) on_yes on_no skip)
  service key on_yes on_no k p q =
      Within-with_code h boolean _ key false _ _ _ k p q (Unmarked-skip h)

  pub Within-earlier :
      (is_auto lvm : Bool) → All (Within h Unmarked) (earlier_questions h is_auto lvm)
  unfolding apart
  Within-earlier is_auto lvm = (
    config _ _ _ refl (Unmarked-skip h),
    (
      config _ _ _ refl (Unmarked-skip h),
      (
        Within-network,
        (
          config _ _ _ refl (λ a. search unmarked_rules),
          (
            config _ _ _ refl (Unmarked-skip h),
            (
              service _ _ _ refl (Unmarked-rabbit_yes h) (Unmarked-rabbit_no h),
              (
                service _ _ _ refl (Unmarked-database_yes h) (Unmarked-database_no h),
                (
                  service _ _ _ refl (Unmarked-placement_yes h) (Unmarked-placement_no h),
                  (
                    service _ _ _ refl (Unmarked-nova_yes h) (Unmarked-nova_no h),
                    (
                      service _ _ _ refl (Unmarked-hypervisor_yes h) (Unmarked-hypervisor_no h),
                      (
                        service _ _ _ refl (Unmarked-spice_yes h) (Unmarked-spice_no h),
                        (
                          service _ _ _ refl (Unmarked-neutron_yes h) (Unmarked-neutron_no h),
                          (
                            service _ _ _ refl (Unmarked-glance_yes h) (Unmarked-glance_no h),
                            (
                              service _ _ _ refl (Unmarked-security_yes h) (Unmarked-skip h),
                              (
                                service _ _ _ refl (Unmarked-cinder_yes h) (Unmarked-cinder_no h),
                                (
                                  Within-with_code h boolean _ _ _ _ _ _ refl (Unmarked-lvm_yes h)
                                      (Unmarked-lvm_no h) (Unmarked-skip h),
                                  tt,
                                ),
                              ),
                            ),
                          ),
                        ),
                      ),
                    ),
                  ),
                ),
              ),
            ),
          ),
        ),
      ),
    ),
  )

  pub Unmarked-process : (a : InitArgs) → Adds Unmarked (process_init_args h a)
  unfolding process_init_args apart other_keys
  Unmarked-process a =
      search
        (
          unmarked_rules,
          Unmarked-other_keys h (("config.is-clustered", _) ∷ []) refl,
          Unmarked-other_keys h (("config.cluster.role", _) ∷ []) refl,
          Unmarked-other_keys h (("config.cluster.connection-string.raw", _) ∷ []) refl,
          Unmarked-other_keys h (("config.network.default-source-ip", _) ∷ []) refl,
          Unmarked-other_keys h
              (("config.cinder.setup-loop-based-cinder-lvm-backend", _)
                ∷ ("config.cinder.loop-device-file-size", _)
                ∷ [])
              refl,
        )
        depth 40 fits 20000

  module _ (c : Codec) (fingerprint : List ℕ) (a : InitArgs) where
    pub Unmarked-join_first : Adds Unmarked (join_first h c fingerprint a)
    unfolding join_first
    Unmarked-join_first = search (unmarked_rules, Unmarked-clustering_yes h) depth 40 fits 20000

    pub Unmarked-clustering :
        Adds Unmarked (ask_all h (clustering_question h c fingerprint (interaction a) ∷ []))
    unfolding apart clustering_no
    Unmarked-clustering = Adds-ask_all _ (
      Within-with_code h boolean _ _ _ _ _ _ refl (Unmarked-clustering_yes h c fingerprint _)
          (λ b. Unmarked-disable h _) (Unmarked-skip h),
      tt,
    )

    -- `init` as far as the questions before PostSetup.
    abbrev pub start_up : Action (Unit {0})
    start_up = do
      require_root h
      is_auto ← process_init_args h a
      branch (is_given a.connection_string) (join_first h c fingerprint a)
          (ask_all h (clustering_question h c fingerprint (interaction a) ∷ []))
      ask_all h (earlier_questions h is_auto a.setup_loop_based_cinder_lvm_backend)

    Unmarked-start_up : Adds Unmarked start_up
    unfolding require_root
    Unmarked-start_up = Adds-then _ _ (search unmarked_rules) (
        Adds-bind _ _ (Unmarked-process a) λ is_auto.
          Adds-then _ _ (Adds-branch _ _ _ Unmarked-join_first Unmarked-clustering)
            (Adds-ask_all _ (Within-earlier is_auto _)))

    Extends-start_up : Extends start_up (init h c fingerprint a)
    unfolding init
    Extends-start_up = Extends-bind _ _ _ λ _. Extends-bind _ _ _ λ is_auto. Extends-bind _ _ _ λ _.
        Extends-ask_all h (earlier_questions h is_auto a.setup_loop_based_cinder_lvm_backend)
          (post_question h ∷ extra_services_question h (not is_auto) ∷ [])

    -- Whatever raises before PostSetup is asked, be it the check for root, the arguments, the
    -- cluster or one of the sixteen questions, is raised by `init`, in the same world: no later
    -- question is asked, and no `snapctl set` of the run has marked the node as initialized.
    pub init-start_up :
        (w v : World) (x : Error)
        → start_up w ≡ (raised x, v)
        → (init h c fingerprint a w ≡ (raised x, v)) × Between Unmarked w.log v.log
    init-start_up w v x e = (
      Extends-start_up.same w v x e,
      subst (λ r. Between Unmarked w.log r.1.log) e (Unmarked-start_up.from w),
    )
