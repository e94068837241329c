-- ===== src/Init/Processed.antt =====
-- Which arguments are refused, and which role a node is given.
use microstack.Base.{
  String, ◌<>◌, ◌≡◌, refl, Bool, true, false, not, ◌&&◌, ◌||◌, List, [], ◌∷◌, ◌++◌, if◌then◌else◌,
  decimal,
}
use microstack.Machine.{command, History, Host, World, value_error}
use microstack.Machine.Monad.{ok, raised, when, ◌>>=◌}
use microstack.Shell.{check, config_set}
use microstack.Init.{InitArgs, is_given, text_or_none, lower_bool, set_one, process_init_args}

abbrev pub setting : String → List String
setting kv = "snapctl" ∷ "set" ∷ kv ∷ []

-- A command, or none, before a history.
abbrev pub one_if : Bool → String → History → History
one_if b kv log = (if b then command (setting kv) ∷ [] else []) ++ log

-- What the arguments set, newest first, before a history: a node with both roles has the role of a
-- control node at last.
abbrev pub settings : InitArgs → History → History
settings a log =
    command (
      "snapctl"
      ∷ "set"
      ∷ ("config.cinder.setup-loop-based-cinder-lvm-backend"
          <> "="
          <> lower_bool a.setup_loop_based_cinder_lvm_backend)
      ∷ ("config.cinder.loop-device-file-size" <> "=" <> (decimal a.loop_device_file_size <> "G"))
      ∷ [])
    ∷ command
        (setting ("config.network.default-source-ip" <> "=" <> text_or_none a.default_source_ip))
    ∷ one_if (is_given a.connection_string)
        ("config.cluster.connection-string.raw" <> "=" <> text_or_none a.connection_string)
        (one_if a.control "config.cluster.role=control" (
          one_if a.compute "config.cluster.role=compute"
            (one_if (a.compute || a.control) "config.is-clustered=true" log)))

-- `snapctl` accepts every value.
abbrev pub Accepts : Host → Type 0
Accepts h = (log : History) (kvs : List String) → h.status log ("snapctl" ∷ "set" ∷ kvs) ≡ 0

module _ (h : Host) (accepts : Accepts h) (a : InitArgs) (w : World) where
  set_one-Accepts :
      (key value : String) (v : World)
      → set_one h key value v
        ≡ (ok tt, record v { log = command (setting (key <> "=" <> value)) ∷ v.log })
  unfolding config_set check ◌>>=◌
  set_one-Accepts key value v = rw (accepts v.log (((key <> "=" <> value)) ∷ []))

  -- With --auto and --compute, and with neither --control nor a connection string, a run raises
  -- ValueError after it has stored the cluster mode, the role and the source address. `snapctl`
  -- accepts every value.
  pub process_init_args-no_connection :
      a.auto ≡ true
      → a.control ≡ false
      → a.compute ≡ true
      → is_given a.connection_string ≡ false
      → process_init_args h a w ≡ (
        raised (value_error "connection string"),
        record w {
          log =
              command (
                setting
                  ("config.network.default-source-ip" <> "=" <> text_or_none a.default_source_ip))
              ∷ command (setting "config.cluster.role=compute")
              ∷ command (setting "config.is-clustered=true")
              ∷ w.log;
        },
      )
  unfolding process_init_args ◌>>=◌
  process_init_args-no_connection x y z c =
      rw
        (
          x,
          y,
          z,
          c,
          set_one-Accepts "config.is-clustered" "true" w,
          set_one-Accepts "config.cluster.role" "compute" _,
          set_one-Accepts "config.network.default-source-ip" (text_or_none a.default_source_ip) _,
        )
        refl

  when-set_one :
      (b : Bool) (key value : String) (v : World)
      → when b (set_one h key value) v
        ≡ (ok tt, record v { log = one_if b (key <> "=" <> value) v.log })
  unfolding when
  when-set_one true key value v = set_one-Accepts key value v
  when-set_one false key value v = refl

  set_both :
      (k₁ v₁ k₂ v₂ : String) (v : World)
      → config_set h ((k₁, v₁) ∷ (k₂, v₂) ∷ []) v ≡ (
        ok tt,
        record v {
          log = command ("snapctl" ∷ "set" ∷ (k₁ <> "=" <> v₁) ∷ (k₂ <> "=" <> v₂) ∷ []) ∷ v.log;
        },
      )
  unfolding config_set check ◌>>=◌
  set_both k₁ v₁ k₂ v₂ v = rw (accepts v.log ((k₁ <> "=" <> v₁) ∷ (k₂ <> "=" <> v₂) ∷ []))

  -- Arguments that are not refused are stored, one command for each but the last, which sets the
  -- two values of Cinder, and --auto is returned. With --compute and --control, the role is set to
  -- compute first and then to control. `snapctl` accepts every value.
  pub process_init_args-settings :
      (a.auto && not (a.control || a.compute)) ≡ false
      → (a.auto && not a.control && not (is_given a.connection_string)) ≡ false
      → process_init_args h a w ≡ (ok a.auto, record w { log = settings a w.log })
  unfolding process_init_args ◌>>=◌
  process_init_args-settings x y =
      rw
        (
          x,
          when-set_one (a.compute || a.control) "config.is-clustered" "true" w,
          when-set_one a.compute "config.cluster.role" "compute" _,
          when-set_one a.control "config.cluster.role" "control" _,
          when-set_one (is_given a.connection_string) "config.cluster.connection-string.raw"
              (text_or_none a.connection_string) _,
          set_one-Accepts "config.network.default-source-ip" (text_or_none a.default_source_ip) _,
          y,
          set_both "config.cinder.setup-loop-based-cinder-lvm-backend"
              (lower_bool a.setup_loop_based_cinder_lvm_backend)
              "config.cinder.loop-device-file-size" (decimal a.loop_device_file_size <> "G") _,
        )
        refl
