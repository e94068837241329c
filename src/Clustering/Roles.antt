-- ===== src/Clustering/Roles.antt =====
-- The questions Role, ConnectionString, ControlIp and ComputeIp.
pub mod Asked
use microstack.Base.{
  ℕ, zero, suc, String, ◌<>◌, Bool, true, false, not, ◌&&◌, some, List, [], ◌∷◌, contains,
}
use microstack.Json.{Json, null, bool, num, str, arr, obj, is_str, truthy}
use microstack.Machine.{Host, prompted, after_event, invalid_answer, attribute_error}
use microstack.Machine.Monad.{Outcome, ok, raised, Action, pure, raise, lift, branch, ◌>>=◌, ◌>>◌}
use microstack.Shell.{config_get, config_set, to_str}
use microstack.Question.{
  string, Answer, nothing, flag, text, value, Question, base, input_func, load,
}
use microstack.Question.Ask.{ask}
use microstack.Clustering.ConnectionString.{Codec, Checked, accepted, rejected, validate, after}

abbrev pub role_key : String
role_key = "config.cluster.role"

abbrev pub role_text : String
role_text = "Which role would you like to use for this node: \"control\" or \"compute\"?"

-- `input(prompt)`
unfoldable pub input : Host → String → Action String
input h prompt w = (ok (h.answer w.log prompt), after_event (prompted prompt) w)

-- The loop of `Role._input_func`, for the tries that are left.
unfoldable pub role_tries : Host → ℕ → Action Answer
unfolding input
role_tries h zero = raise invalid_answer
role_tries h (suc n) = do
  role ← input h (role_text <> " > ")
  branch (contains ("control" ∷ "compute" ∷ []) role) (pure (text role)) (role_tries h n)

-- `Role._input_func`
unfoldable pub role_input : Host → Bool → Action Answer
unfolding role_tries
role_input h false = pure nothing
role_input h true = role_tries h 3

abbrev pub role_question : Host → Bool → Question
role_question h interactive = record (base h string role_text role_key interactive) {
  input_func = λ prompt. role_input h interactive;
}

-- What `ConnectionString._validate` returns for what it does.
unfoldable pub verdict_of : String → Outcome Checked → Outcome (Answer × Bool)
verdict_of s (ok (accepted info)) = ok (text s, true)
verdict_of s (ok rejected) = ok (text s, false)
verdict_of s (raised e) = raised e

-- `ConnectionString._validate`; `encode` is a method of `str` alone.
unfoldable pub validate_answer : Codec → Answer → Outcome (Answer × Bool)
unfolding verdict_of
validate_answer c (text s) = verdict_of s (validate c s)
validate_answer c _ = raised (attribute_error "encode")

-- `after` with `self._conn_info`, which the validation of the same answer has set.
unfoldable pub after_verdict : Host → Codec → Outcome Checked → Action (Unit {0})
after_verdict h c (ok (accepted info)) = after h c info
after_verdict h c _ = raise (attribute_error "_conn_info")

unfoldable pub after_answer : Host → Codec → Answer → Action (Unit {0})
unfolding after_verdict
after_answer h c (text s) = after_verdict h c (validate c s)
after_answer h c _ = raise (attribute_error "_conn_info")

abbrev pub connection_question : Host → Codec → Bool → Question
connection_question h c interactive =
    record (base h string "Please enter a connection string returned by the add-compute command > "
      "config.cluster.connection-string.raw" interactive) {
        validate = validate_answer c;
        after = after_answer h c;
      }

-- `ConnectionString.ask`
unfoldable pub ask_connection : Host → Codec → Bool → Action Answer
ask_connection h c interactive = do
  role ← config_get h (role_key ∷ [])
  branch (is_str "control" role) (pure nothing) (ask h (connection_question h c interactive))

-- A value that `json.loads` returned, as an answer.
unfoldable pub answer_of : Host → Json → Answer
answer_of h null = nothing
answer_of h (bool b) = flag b
answer_of h (str s) = text s
answer_of h j = value (to_str h j)

-- `default_source_address() or …`
unfoldable pub source_or : Host → Action Answer → Action Answer
unfolding answer_of
source_or h other = do
  source ← config_get h ("config.network.default-source-ip" ∷ [])
  branch (truthy source) (pure (answer_of h source)) other

abbrev pub control_ip_key : String
control_ip_key = "config.network.control-ip"

abbrev pub compute_ip_key : String
compute_ip_key = "config.network.compute-ip"

-- `ControlIp._load`
unfoldable pub load_control_ip : Host → Action Answer
unfolding source_or
load_control_ip h = do
  role ← config_get h (role_key ∷ [])
  branch (is_str "control" role) (source_or h (load h string (some control_ip_key)))
      (load h string (some control_ip_key))

abbrev pub control_ip_question : Host → Bool → Question
control_ip_question h interactive =
    record (base h string "Please enter the ip address of the control node" control_ip_key
      interactive) { load = load_control_ip h }

-- `ControlIp.ask`
unfoldable pub ask_control_ip : Host → Bool → Action Answer
ask_control_ip h interactive = do
  role ← config_get h (role_key ∷ [])
  branch (is_str "compute" role) (pure nothing) (ask h (control_ip_question h interactive))

-- `ComputeIp._load`, whose `super().load()` is no method.
unfoldable pub load_compute_ip : Host → Action Answer
unfolding source_or
load_compute_ip h = do
  role ← config_get h (role_key ∷ [])
  branch (is_str "compute" role) (source_or h (raise (attribute_error "load")))
      (load h string (some compute_ip_key))

abbrev pub compute_ip_question : Host → Bool → Question
compute_ip_question h interactive =
    record (base h string "Please enter the ip address of this node" compute_ip_key interactive) {
      load = load_compute_ip h;
    }

-- `ComputeIp.ask`
unfoldable pub ask_compute_ip : Host → Bool → Action Answer
ask_compute_ip h interactive = do
  role ← config_get h (role_key ∷ [])
  branch (is_str "control" role)
      (do
        ip ← config_get h (control_ip_key ∷ [])
        config_set h ((compute_ip_key, to_str h ip) ∷ [])
        pure nothing)
      (ask h (compute_ip_question h interactive))
