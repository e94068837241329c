-- ===== src/Init.antt =====
-- tools/init/init/main.py: what the arguments of `init` store in the snap configuration.
pub mod Arguments
pub mod Processed
pub mod Questions
pub mod Marks
pub mod Configured
pub mod Guards
pub mod Command
pub mod Defaulted
use microstack.Base.{
  ℕ, String, ◌<>◌, ◌==◌, Bool, true, false, not, ◌&&◌, ◌||◌, Option, none, some, List, [], ◌∷◌,
  decimal,
}
use microstack.Machine.{Host, value_error}
use microstack.Machine.Monad.{Action, pure, when, raise_if, ◌>>=◌, ◌>>◌}
use microstack.Shell.{config_set}

-- The parsed arguments; `debug` sets the level of the log only.
pub record InitArgs : Type 0 where
  pub auto : Bool
  pub connection_string : Option String
  pub compute : Bool
  pub control : Bool
  pub setup_loop_based_cinder_lvm_backend : Bool
  pub loop_device_file_size : ℕ
  pub default_source_ip : Option String

-- `bool(args.connection_string)`
abbrev pub is_given : Option String → Bool
is_given none = false
is_given (some s) = not (s == "")

-- `f'{value}'` of a text or None.
abbrev pub text_or_none : Option String → String
text_or_none none = "None"
text_or_none (some s) = s

-- `str(b).lower()`
abbrev pub lower_bool : Bool → String
lower_bool true = "true"
lower_bool false = "false"

abbrev pub set_one : Host → String → String → Action (Unit {0})
set_one h key value = config_set h ((key, value) ∷ [])

unfoldable pub process_init_args : Host → InitArgs → Action Bool
process_init_args h a = do
  raise_if (a.auto && not (a.control || a.compute)) (value_error "role")
  when (a.compute || a.control) (set_one h "config.is-clustered" "true")
  when a.compute (set_one h "config.cluster.role" "compute")
  when a.control (set_one h "config.cluster.role" "control")
  when (is_given a.connection_string)
      (set_one h "config.cluster.connection-string.raw" (text_or_none a.connection_string))
  set_one h "config.network.default-source-ip" (text_or_none a.default_source_ip)
  raise_if (a.auto && not a.control && not (is_given a.connection_string))
      (value_error "connection string")
  config_set h (
      (
        "config.cinder.setup-loop-based-cinder-lvm-backend",
        lower_bool a.setup_loop_based_cinder_lvm_backend,
      )
      ∷ ("config.cinder.loop-device-file-size", decimal a.loop_device_file_size <> "G")
      ∷ [])
  pure a.auto
