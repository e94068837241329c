-- ===== src/Init/Command.antt =====
-- The command `init`, from its command line.
use microstack.Base.{ℕ, ◌≤◌, ◌≡◌, sym, ap, ◌∙◌, List}
use microstack.Machine.{Host, World}
use microstack.Machine.Monad.{ok, lift, bind-eq-ok, ◌>>=◌, ◌>>◌}
use microstack.Machine.Performs.{Has}
use microstack.Addresses.{Netifaces}
use microstack.Clustering.ConnectionString.{Codec}
use microstack.Init.{InitArgs}
use microstack.Init.Arguments.{Readers, Line, parse_init_args}
use microstack.Init.Arguments.Checked.{IsAddress, parse_init_args-IsChecked}
use microstack.Init.Questions.{require_root, init_with, init, init_command}
use microstack.Init.Marks.Marked.{marked, init-marked}

module _ (r : Readers) (n : Netifaces) (line : Line) (h : Host) (c : Codec)
    (fingerprint : List ℕ) where
  pub init_command-init :
      (a : InitArgs) (w : World)
      → parse_init_args r n line ≡ ok a
      → init_command r n line h c fingerprint w ≡ init h c fingerprint a w
  unfolding init_command init lift ◌>>=◌
  init_command-init a w e =
      ap (λ o. (do require_root h; b ← lift o; init_with h c fingerprint b) w) e

  -- A command `init` that returns was given arguments that argparse lets through, has done what
  -- `init` does on these, with a size of the loop device of at least 1 and a source address, if
  -- any, as ipaddress writes it, and has marked the node as initialized after the restart of
  -- libvirtd, virtlogd and nova-compute.
  pub init_command-marked :
      (w v : World)
      → init_command r n line h c fingerprint w ≡ (ok tt, v)
      → (a : InitArgs) × (parse_init_args r n line ≡ ok a)
        × (init h c fingerprint a w ≡ (ok tt, v))
        × (1 ≤ a.loop_device_file_size)
        × IsAddress r a.default_source_ip
        × Has marked w.log v.log
  unfolding init_command lift
  init_command-marked w v e =
      let (_, u, p, e₁) = bind-eq-ok (require_root h) _ w v e in
      let (a, u', q, e₂) = bind-eq-ok (lift (parse_init_args r n line)) _ u v e₁ in
      let parses : parse_init_args r n line ≡ ok a = ap (λ x. x.0) q in
      let runs : init h c fingerprint a w ≡ (ok tt, v) = sym (init_command-init a w parses) ∙ e in
      let (size, address, _, _, _, _, _) = parse_init_args-IsChecked r n line a parses in
      (a, parses, runs, size, address, init-marked h c fingerprint a w v runs)
