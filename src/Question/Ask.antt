-- ===== src/Question/Ask.antt =====
-- `Question.ask`
use microstack.Base.{ℕ, zero, suc, String, ◌<>◌, true, if◌then◌else◌}
use microstack.Machine.{Host, invalid_answer}
use microstack.Machine.Monad.{Action, pure, raise, lift, branch, ◌>>=◌, ◌>>◌}
use microstack.Question.{Kind, boolean, auto, Answer, flag, truthy, to_str, Question, save}

abbrev choice : Kind → String
choice boolean = " (yes/no) "
choice _ = " "

-- The first prompt.
unfoldable pub first_prompt : Question → Answer → String
unfolding to_str
first_prompt q default = q.question <> choice q.kind <> "[default=" <> to_str default <> "] > "

-- `'{} is not valid. {} > '`
unfoldable pub next_prompt : Question → Answer → String
unfolding to_str
next_prompt q a = to_str a <> " is not valid. " <> q.invalid_prompt <> " > "

-- `self._type == 'auto' or self._input_func(prompt) or default`
unfoldable pub raw_answer : Question → Answer → String → Action Answer
unfolding truthy
raw_answer q default prompt = elim q.kind [
  | auto ↦ pure (flag true)
  | _ ↦ do typed ← q.input_func prompt; pure (if truthy typed then typed else default)
]

-- What is done with a valid answer.
unfoldable pub conclude : Host → Question → Answer → Action Answer
unfolding truthy
conclude h q a = do
  branch (truthy a) (q.on_yes a) (q.on_no a)
  save h q.kind q.config_key a
  q.after a
  pure a

-- The loop over the tries that are left.
unfoldable pub tries : Host → ℕ → Question → Answer → String → Action Answer
tries h zero q default prompt = raise invalid_answer
tries h (suc n) q default prompt = do
  typed ← raw_answer q default prompt
  (a, valid) ← lift (q.validate typed)
  branch valid (conclude h q a) (tries h n q default (next_prompt q a))

unfoldable pub ask : Host → Question → Action Answer
ask h q = do default ← q.load; tries h q.retries q default (first_prompt q default)
