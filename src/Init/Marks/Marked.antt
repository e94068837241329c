-- ===== src/Init/Marks/Marked.antt =====
-- A run of `init` that returns.
use microstack.Base.{
  ℕ, String, ◌<>◌, ◌≡◌, refl, sym, ◌∙◌, Bool, true, not, List, [], ◌∷◌, ◌++◌, All,
}
use microstack.Base.Apart.{apart}
use microstack.Machine.{Event, command, Host, World}
use microstack.Machine.Monad.{ok}
use microstack.Machine.Adds.{Adds, Adds-branch, Adds-then}
use microstack.Machine.Performs.{Has, Performs, Performs-bind, Performs-then, Performs-before}
use microstack.Shell.Performed.{Performs-check, Performs-restart}
use microstack.Question.{boolean, Answer, Question, flag, skip, base, with_code}
use microstack.Question.Ask.{ask}
use microstack.Question.Adds.{Within, Adds-ask}
use microstack.Question.Laws.{ask_auto}
use microstack.Services.Start.{post_setup_yes}
use microstack.Services.Settings.{
  extra_service, extra_yes, extra_no, extra_services_yes, extra_services_question,
  filebeat_question, telegraf_question, nrpe_question,
}
use microstack.Clustering.ConnectionString.{Codec}
use microstack.Init.{InitArgs}
use microstack.Init.Questions.{require_root, earlier_questions, post_question, ask_all, init}
use microstack.Init.Marks.{Unmarked, unmarked_rules}
use microstack.Init.Marks.Nodes.{Within-with_code, Unmarked-skip}
use microstack.Init.Marks.Early.{
  Adds-ask_all, Within-earlier, Unmarked-process, Unmarked-join_first, Unmarked-clustering,
}

abbrev restarted : String → Event
restarted service = command ("snapctl" ∷ "restart" ∷ ("microstack." <> service) ∷ [])

-- The last steps of a node, newest first.
abbrev pub marked : List Event
marked =
    command ("snapctl" ∷ "set" ∷ "initialized=true" ∷ [])
    ∷ restarted "nova-compute"
    ∷ restarted "virtlogd"
    ∷ restarted "libvirtd"
    ∷ []

module _ (h : Host) where
  Performs-post_setup_yes : (a : Answer) → Performs marked (post_setup_yes h a)
  unfolding post_setup_yes
  Performs-post_setup_yes a = Performs-bind _ _ _ _ (Performs-restart h "libvirtd") λ _.
      Performs-bind _ _ _ _ (Performs-restart h "virtlogd") λ _.
        Performs-bind _ _ _ _ (Performs-restart h "nova-compute") λ _.
          Performs-then {P = Unmarked} _ _ _ (search unmarked_rules) λ role.
            Performs-then {P = Unmarked} _ _ _ (search unmarked_rules) λ _. Performs-check h _

  Performs-post : Performs marked (ask h (post_question h))
  Performs-post = record {
    from = λ w v a e.
        (Performs-before {P = Unmarked} _ _ _ (Performs-post_setup_yes (flag true))
            (λ _. search unmarked_rules)).from
          w v a (sym (ask_auto h _ _ _ _ _ _ w) ∙ e);
  }

  Unmarked-extra : (name : String) (a : Answer) → Adds Unmarked (extra_yes h name a)
  unfolding extra_yes extra_service
  Unmarked-extra name a = search unmarked_rules

  Unmarked-no_extra : (name : String) (a : Answer) → Adds Unmarked (extra_no h name a)
  unfolding extra_no extra_service
  Unmarked-no_extra name a = search unmarked_rules

  Unmarked-extra_services_yes :
      (interactive : Bool) (a : Answer) → Adds Unmarked (extra_services_yes h interactive a)
  unfolding extra_services_yes apart
  Unmarked-extra_services_yes interactive a =
      Adds-then _ _ (Adds-ask h (filebeat_question h interactive) (simple "filebeat" refl)) (
        Adds-then _ _ (Adds-ask h (telegraf_question h interactive) (simple "telegraf" refl)) (
          Adds-then _ _ (Adds-ask h (nrpe_question h interactive) (simple "nrpe" refl))
            (search unmarked_rules)))
    where
      simple :
          {question : String} (name : String)
          → apart ("config.services.extra." <> name) "initialized=true" ≡ true
          → Within h Unmarked (
              with_code
                (base h boolean question ("config.services.extra." <> name) interactive)
                (extra_yes h name)
                (extra_no h name)
                skip)
      simple name e =
          Within-with_code h boolean _ _ interactive _ _ _ e (Unmarked-extra name)
            (Unmarked-no_extra name) (Unmarked-skip h)

  Within-extra_services :
      (interactive : Bool) → Within h Unmarked (extra_services_question h interactive)
  unfolding apart
  Within-extra_services interactive =
      Within-with_code h boolean _ _ interactive _ _ _ refl
        (Unmarked-extra_services_yes interactive) (Unmarked-skip h) (Unmarked-skip h)

  -- Questions that perform, after others.
  Performs-ask_all :
      (qs rest : List Question) (xs : List Event)
      → All (Within h Unmarked) qs
      → Performs xs (ask_all h rest)
      → Performs xs (ask_all h (qs ++ rest))
  unfolding ask_all
  Performs-ask_all [] rest xs p r = r
  Performs-ask_all (q ∷ qs) rest xs p r =
      Performs-then _ _ _ (Adds-ask h q p.0) (λ _. Performs-ask_all qs rest xs p.1 r)

  Performs-last :
      (interactive : Bool)
      → Performs marked (ask_all h (post_question h ∷ extra_services_question h interactive ∷ []))
  unfolding ask_all
  Performs-last interactive = Performs-before _ _ _ Performs-post (λ _.
      Adds-ask_all h (extra_services_question h interactive ∷ [])
        (Within-extra_services interactive, tt))

  -- A run of `init` that returns has, in this order, restarted libvirtd, virtlogd and
  -- nova-compute, and marked the node as initialized, by one command each that this run has added
  -- to the log.
  pub init-marked :
      (c : Codec) (fingerprint : List ℕ) (a : InitArgs) (w v : World)
      → init h c fingerprint a w ≡ (ok tt, v)
      → Has marked w.log v.log
  unfolding init require_root
  init-marked c fingerprint a w v e =
      (Performs-then {P = Unmarked} _ _ _ (search unmarked_rules) λ _.
          Performs-then _ _ _ (Unmarked-process h a) λ is_auto.
            Performs-then _ _ _
              (Adds-branch _ _ _ (Unmarked-join_first h c fingerprint a)
                (Unmarked-clustering h c fingerprint a))
              λ _.
                Performs-ask_all (earlier_questions h is_auto lvm) (last is_auto) _
                  (Within-earlier h is_auto lvm) (Performs-last (not is_auto))).from
        w v tt e
    where
      lvm : Bool
      lvm = a.setup_loop_based_cinder_lvm_backend

      last : Bool → List Question
      last is_auto = post_question h ∷ extra_services_question h (not is_auto) ∷ []
