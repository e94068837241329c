-- ===== src/Init/Configured.antt =====
-- What the arguments of `init` mean for the snap configuration, apart from the commands that store
-- it.
use microstack.Base.{
  String, ◌<>◌, ◌≡◌, refl, Bool, true, false, not, ◌&&◌, ◌||◌, arith, Option, none, some,
  if◌then◌else◌, decimal,
}
use microstack.Base.Apart.{is_key}
use microstack.Machine.{History, Host, World}
use microstack.Machine.Monad.{ok}
use microstack.Shell.Snap.{Snap, put, put_some, snap, snap-set, snap-set_two}
use microstack.Init.{InitArgs, is_given, text_or_none, lower_bool, process_init_args}
use microstack.Init.Processed.{Accepts, settings, one_if, process_init_args-settings}

-- The role that the arguments ask for: control, if both are given.
abbrev pub role_of : InitArgs → Option String
role_of a = if a.control then some "control" else if a.compute then some "compute" else none

-- The configuration of a node with these arguments, over the one before.
abbrev pub configured : InitArgs → Snap → Snap
configured a m =
    put "config.cinder.loop-device-file-size" (decimal a.loop_device_file_size <> "G") (
      put "config.cinder.setup-loop-based-cinder-lvm-backend"
        (lower_bool a.setup_loop_based_cinder_lvm_backend)
        (put "config.network.default-source-ip" (text_or_none a.default_source_ip) (
          put_some "config.cluster.connection-string.raw"
            (if is_given a.connection_string then some (text_or_none a.connection_string) else none)
            (put_some "config.cluster.role" (role_of a) (
              put_some "config.is-clustered" (if a.compute || a.control then some "true" else none)
                m)))))

put-put : (k v₁ v₂ : String) (m : Snap) → put k v₂ (put k v₁ m) ≡ put k v₂ m
unfolding put
put-put k v₁ v₂ m = λ i j. go j i
  where
    go : (j : String) → put k v₂ (put k v₁ m) j ≡ put k v₂ m j
    go j = ground arith

module _ (m : Snap) where
  snap-one_if :
      (b : Bool) (key value : String) (log : History)
      → is_key key ≡ true
      → snap m (one_if b (key <> ("=" <> value)) log)
        ≡ put_some key (if b then some value else none) (snap m log)
  unfolding put_some
  snap-one_if true key value log k = snap-set m key value log k
  snap-one_if false key value log k = refl

  -- The two roles, one after the other.
  roles :
      (a : InitArgs) (n : Snap)
      → put_some "config.cluster.role"
          (if a.control then some "control" else none)
          (put_some "config.cluster.role" (if a.compute then some "compute" else none) n)
        ≡ put_some "config.cluster.role" (role_of a) n
  unfolding put_some
  roles a n = go a.control a.compute
    where
      go :
          (x y : Bool)
          → put_some "config.cluster.role"
              (if x then some "control" else none)
              (put_some "config.cluster.role" (if y then some "compute" else none) n)
            ≡ put_some "config.cluster.role"
                (if x then some "control" else if y then some "compute" else none)
                n
      go true true = put-put "config.cluster.role" "compute" "control" n
      go true false = refl
      go false true = refl
      go false false = refl

  snap-settings :
      (a : InitArgs) (log : History) → snap m (settings a log) ≡ configured a (snap m log)
  unfolding is_key
  snap-settings a log =
      rw
        (
          snap-set_two m "config.cinder.setup-loop-based-cinder-lvm-backend"
              (lower_bool a.setup_loop_based_cinder_lvm_backend)
              "config.cinder.loop-device-file-size" (decimal a.loop_device_file_size <> "G") _ refl
              refl,
          snap-set m "config.network.default-source-ip" (text_or_none a.default_source_ip) _ refl,
          snap-one_if (is_given a.connection_string) "config.cluster.connection-string.raw"
              (text_or_none a.connection_string) _ refl,
          snap-one_if a.control "config.cluster.role" "control" _ refl,
          snap-one_if a.compute "config.cluster.role" "compute" _ refl,
          snap-one_if (a.compute || a.control) "config.is-clustered" "true" _ refl,
          roles a _,
        )
        refl

  -- The commands for arguments that are not refused implement the configuration that these mean:
  -- the role is one value, control if both are given, and the keys that no argument names keep
  -- what they had. `snapctl` accepts every value.
  pub process_init_args-configured :
      (h : Host) (a : InitArgs) (w : World)
      → Accepts h
      → (a.auto && not (a.control || a.compute)) ≡ false
      → (a.auto && not a.control && not (is_given a.connection_string)) ≡ false
      → (v : World) × (process_init_args h a w ≡ (ok a.auto, v))
        × (snap m v.log ≡ configured a (snap m w.log))
  process_init_args-configured h a w accepts x y = (
    record w { log = settings a w.log },
    process_init_args-settings h accepts a w x y,
    snap-settings a w.log,
  )
