-- ===== src/Init/Marks/Clusters.antt =====
-- What the question on clustering does to the mark of the node.
use microstack.Base.{ℕ, zero, suc, String, ◌<>◌, refl, Bool, true, false, List, [], ◌∷◌}
use microstack.Base.Dict.{Dict}
use microstack.Base.Apart.{apart}
use microstack.Machine.{Host, prompted}
use microstack.Machine.Monad.{Outcome, ok, raised}
use microstack.Machine.Adds.{
  Adds, adds_rules, Adds-raise, Adds-pure, Adds-bind, Adds-then, Adds-branch,
}
use microstack.Question.{string, Answer, nothing, flag, text, value}
use microstack.Question.Ask.{ask}
use microstack.Question.Adds.{Adds-ask, Adds-save, Adds-load, Adds-input_func}
use microstack.Clustering.ConnectionString.{
  Codec, Packed, Checked, accepted, rejected, validate, after,
}
use microstack.Clustering.Roles.{
  input, role_tries, role_input, role_question, after_verdict, after_answer, ask_connection,
  source_or, load_control_ip, ask_control_ip, load_compute_ip, ask_compute_ip,
}
use microstack.Clustering.Tls.{path_from, generate_selfsigned}
use microstack.Clustering.Node.{Interaction, setup_role, clustering_yes}
use microstack.Services.Adds.{Adds-write_file}
use microstack.Init.Marks.{Unmarked, Unmarked-set, Unmarked-other_keys, other_keys, unmarked_rules}
use microstack.Init.Marks.Nodes.{Unmarked-skip}

module _ (h : Host) where
  Unmarked-input : (prompt : String) → Adds Unmarked (input h prompt)
  unfolding input
  Unmarked-input prompt = record {
    from = λ w. record { new = prompted prompt ∷ []; eq = refl; each = (refl, tt) };
  }

  Unmarked-role_tries : (n : ℕ) → Adds Unmarked (role_tries h n)
  unfolding role_tries
  Unmarked-role_tries zero = Adds-raise _
  Unmarked-role_tries (suc n) =
      Adds-bind _ _ (Unmarked-input _)
        (λ role. Adds-branch _ _ _ (Adds-pure _) (Unmarked-role_tries n))

  Unmarked-role_input : (interactive : Bool) → Adds Unmarked (role_input h interactive)
  unfolding role_input
  Unmarked-role_input false = Adds-pure _
  Unmarked-role_input true = Unmarked-role_tries 3

  Unmarked-role : (interactive : Bool) → Adds Unmarked (ask h (role_question h interactive))
  unfolding apart
  Unmarked-role interactive = Adds-ask h _ (record {
    loads = Adds-load h string _ refl;
    asks = λ prompt. Unmarked-role_input interactive;
    says_yes = Unmarked-skip h;
    says_no = Unmarked-skip h;
    follows = Unmarked-skip h;
    stores = λ a. Adds-save h string _ a (λ s. Unmarked-set "config.cluster.role" ("=" <> s) refl);
  })

  Unmarked-after : (c : Codec) (info : Dict Packed) → Adds Unmarked (after h c info)
  unfolding after apart other_keys
  Unmarked-after c info = Adds-bind _ _ (search adds_rules) λ host.
      Adds-bind _ _ (search adds_rules) λ fingerprint. Adds-bind _ _ (search adds_rules) λ digits.
        Adds-bind _ _ (search adds_rules)
          λ id. Adds-bind _ _ (search adds_rules) λ secret. Unmarked-other_keys h _ refl

  Unmarked-after_verdict : (c : Codec) (r : Outcome Checked) → Adds Unmarked (after_verdict h c r)
  unfolding after_verdict
  Unmarked-after_verdict c (ok (accepted info)) = Unmarked-after c info
  Unmarked-after_verdict c (ok rejected) = Adds-raise _
  Unmarked-after_verdict c (raised e) = Adds-raise _

  Unmarked-after_answer : (c : Codec) (a : Answer) → Adds Unmarked (after_answer h c a)
  unfolding after_answer
  Unmarked-after_answer c (text s) = Unmarked-after_verdict c (validate c s)
  Unmarked-after_answer c nothing = Adds-raise _
  Unmarked-after_answer c (flag b) = Adds-raise _
  Unmarked-after_answer c (value s) = Adds-raise _

  Unmarked-ask_connection :
      (c : Codec) (interactive : Bool) → Adds Unmarked (ask_connection h c interactive)
  unfolding ask_connection apart
  Unmarked-ask_connection c interactive = Adds-bind _ _ (search unmarked_rules) λ role.
      Adds-branch _ _ _ (Adds-pure _) (
        Adds-ask h _ (record {
          loads = Adds-load h string _ refl;
          asks = λ prompt. Adds-input_func h interactive prompt (λ s. refl);
          says_yes = Unmarked-skip h;
          says_no = Unmarked-skip h;
          follows = Unmarked-after_answer c;
          stores = λ a.
              Adds-save h string _ a
                (λ s. Unmarked-set "config.cluster.connection-string.raw" ("=" <> s) refl);
        }))

  Unmarked-load_control_ip : Adds Unmarked (load_control_ip h)
  unfolding load_control_ip source_or
  Unmarked-load_control_ip =
      search (unmarked_rules, Adds-load {P = Unmarked} h string _ refl) depth 40 fits 20000

  Unmarked-ask_control_ip : (interactive : Bool) → Adds Unmarked (ask_control_ip h interactive)
  unfolding ask_control_ip apart
  Unmarked-ask_control_ip interactive = Adds-bind _ _ (search unmarked_rules) λ role.
      Adds-branch _ _ _ (Adds-pure _) (
        Adds-ask h _ (record {
          loads = Unmarked-load_control_ip;
          asks = λ prompt. Adds-input_func h interactive prompt (λ s. refl);
          says_yes = Unmarked-skip h;
          says_no = Unmarked-skip h;
          follows = Unmarked-skip h;
          stores = λ a.
              Adds-save h string _ a
                (λ s. Unmarked-set "config.network.control-ip" ("=" <> s) refl);
        }))

  Unmarked-load_compute_ip : Adds Unmarked (load_compute_ip h)
  unfolding load_compute_ip source_or
  Unmarked-load_compute_ip =
      search (unmarked_rules, Adds-load {P = Unmarked} h string _ refl) depth 40 fits 20000

  Unmarked-ask_compute_ip : (interactive : Bool) → Adds Unmarked (ask_compute_ip h interactive)
  unfolding ask_compute_ip apart other_keys
  Unmarked-ask_compute_ip interactive = Adds-bind _ _ (search unmarked_rules) λ role.
      Adds-branch _ _ _
        (Adds-bind _ _ (search unmarked_rules)
          (λ ip. Adds-then _ _ (Unmarked-other_keys h _ refl) (Adds-pure _)))
        (Adds-ask h _ (record {
          loads = Unmarked-load_compute_ip;
          asks = λ prompt. Adds-input_func h interactive prompt (λ s. refl);
          says_yes = Unmarked-skip h;
          says_no = Unmarked-skip h;
          follows = Unmarked-skip h;
          stores = λ a.
              Adds-save h string _ a
                (λ s. Unmarked-set "config.network.compute-ip" ("=" <> s) refl);
        }))

  Unmarked-generate_selfsigned :
      (fingerprint : List ℕ) → Adds Unmarked (generate_selfsigned h fingerprint)
  unfolding generate_selfsigned path_from apart other_keys
  Unmarked-generate_selfsigned fingerprint =
      search
        (
          unmarked_rules,
          Unmarked-other_keys h (("config.cluster.fingerprint", _) ∷ []) refl,
          Adds-write_file,
        )
        depth 40 fits 20000

  Unmarked-setup_role : (fingerprint : List ℕ) → Adds Unmarked (setup_role h fingerprint)
  unfolding setup_role
  Unmarked-setup_role fingerprint =
      search (unmarked_rules, Unmarked-generate_selfsigned) depth 40 fits 20000

  pub Unmarked-clustering_yes :
      (c : Codec) (fingerprint : List ℕ) (i : Interaction) (a : Answer)
      → Adds Unmarked (clustering_yes h c fingerprint i a)
  unfolding clustering_yes
  Unmarked-clustering_yes c fingerprint i a = Adds-then _ _ (Unmarked-role _) (
      Adds-then _ _ (Unmarked-ask_control_ip _) (
        Adds-then _ _ (Unmarked-ask_compute_ip _) (
          Adds-then _ _ (Unmarked-ask_connection c _)
            (Adds-then _ _ (Unmarked-setup_role fingerprint) (search unmarked_rules)))))
