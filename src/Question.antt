-- ===== src/Question.antt =====
-- tools/init/init/questions/question.py: a question is asked, answered by the user or by the snap
-- configuration, and the code for its answer is run.
pub mod Answers
pub mod Adds
pub mod Ask
pub mod Laws
pub mod Rerun
pub mod Refused
pub mod Stored
use microstack.Base.{
  ℕ, String, ◌<>◌, ◌==◌, Bool, true, false, not, ◌&&◌, ◌||◌, Option, none, some, List, [], ◌∷◌,
  lower, strip, contains, if◌then◌else◌,
}
use microstack.Machine.{Host, Error, prompted, after_event, invalid_question, attribute_error}
use microstack.Machine.Monad.{Outcome, ok, raised, Action, pure, raise, lift, ◌>>=◌, ◌>>◌}
use microstack.Shell.{check, check_output}

-- `_type`
pub data Kind : Type 0 where
  boolean string auto : Kind
  unknown : String → Kind

-- The Python values that an answer takes: `None`, a bool, a str, or a true value of another type,
-- which is known by its `str`.
pub data Answer : Type 0 where
  nothing : Answer
  flag : Bool → Answer
  text : String → Answer
  value : String → Answer

-- `bool(answer)`
unfoldable pub truthy : Answer → Bool
truthy nothing = false
truthy (flag b) = b
truthy (text s) = not (s == "")
truthy (value s) = true

-- `str(answer)`
unfoldable pub to_str : Answer → String
to_str nothing = "None"
to_str (flag true) = "True"
to_str (flag false) = "False"
to_str (text s) = s
to_str (value s) = s

-- A question object: its attributes, and the methods that a subclass may override.
pub record Question : Type 0 where
  pub kind : Kind
  pub question : String
  pub config_key : Option String
  pub invalid_prompt : String
  pub retries : ℕ
  pub input_func : String → Action Answer
  pub validate : Answer → Outcome (Answer × Bool)
  pub load : Action Answer
  pub on_yes : Answer → Action (Unit {0})
  pub on_no : Answer → Action (Unit {0})
  pub after : Answer → Action (Unit {0})

-- `__init__`
unfoldable pub new_question : Question → Outcome Question
new_question q = elim q.kind [
  | unknown _ ↦ raised invalid_question
  | auto ↦ ok q
  | _ ↦ elim q.config_key [ none ↦ raised invalid_question | some _ ↦ ok q ]
]

-- `_input_func`; `interactive` is the attribute at the time of the call.
unfoldable pub input_func : Host → Bool → String → Action Answer
input_func h false prompt = pure nothing
input_func h true prompt = λ w. (ok (text (h.answer w.log prompt)), after_event (prompted prompt) w)

-- What `_validate` makes of a text, once the type is known not to be `auto`.
abbrev validate_text : Kind → String → Answer × Bool
validate_text string s = if lower s == "nil" then (nothing, true) else (text s, true)
validate_text _ s =
    if contains ("y" ∷ "yes" ∷ []) (lower s)
    then (flag true, true)
    else if contains ("n" ∷ "no" ∷ []) (lower s)
    then (flag false, true)
    else (text s, false)

-- `_validate`; `lower` is a method of `str` alone.
unfoldable pub validate : Kind → Answer → Outcome (Answer × Bool)
validate auto a = ok (flag true, true)
validate kind (text s) = ok (validate_text kind s)
validate kind _ = raised (attribute_error "lower")

-- `if answer.strip().lower() == word: answer = other`
abbrev replace_word : String → String → String → String
replace_word word other s = if lower (strip s) == word then other else s

-- What `_load` makes of the text that `snapctl get` printed.
unfoldable pub from_config : String → Answer
from_config s =
    let answer = replace_word "false" "no" (replace_word "true" "yes" s) in
    if lower (strip answer) == "null" then nothing else text answer

-- `'{key}'.format(key=self.config_key)`
abbrev key_text : Option String → String
key_text none = "None"
key_text (some key) = key

-- `_load`
unfoldable pub load : Host → Kind → Option String → Action Answer
load h auto key = pure nothing
load h _ key = do
  answer ← check_output h ("snapctl" ∷ "get" ∷ key_text key ∷ [])
  pure (from_config answer)

-- The text that `_save` stores for an answer.
unfoldable pub to_config : Kind → Answer → String
unfolding to_str
to_config boolean a = lower (to_str a)
to_config kind nothing = "null"
to_config kind a = to_str a

-- `_save`; nobody reads the value that it returns.
unfoldable pub save : Host → Kind → Option String → Answer → Action (Unit {0})
unfolding to_config
save h auto key a = pure tt
save h kind key a = check h ("snapctl" ∷ "set" ∷ (key_text key <> "=" <> to_config kind a) ∷ [])

-- The default `yes`, `no` and `after`.
abbrev pub skip : Answer → Action (Unit {0})
skip a = pure tt

-- The class attributes of `Question`, with a type, a text, a key and the attribute `interactive`.
abbrev pub base : Host → Kind → String → String → Bool → Question
base h kind question key interactive = record {
  kind = kind;
  question = question;
  config_key = some key;
  invalid_prompt = "Please answer Yes or No.";
  retries = 3;
  input_func = input_func h interactive;
  validate = validate kind;
  load = load h kind (some key);
  on_yes = skip;
  on_no = skip;
  after = skip;
}

-- A subclass that overrides `yes`, `no` and `after`.
abbrev pub with_code :
    Question
    → (Answer → Action (Unit {0}))
    → (Answer → Action (Unit {0}))
    → (Answer → Action (Unit {0}))
    → Question
with_code q code_yes code_no code_after = record q {
  on_yes = code_yes;
  on_no = code_no;
  after = code_after;
}
