-- ===== src/Rc.antt =====
-- The file microstack.rc: its `export KEY=VALUE` lines are added to the environment. The loop
-- stands in `ConfigQuestion.after` (tools/init) and in `main` of tools/launch alike.
use microstack.Base.{
  String, ◌<>◌, List, [], ◌∷◌, none, some, split, slice_from, strip, readlines, if◌then◌else◌,
}
use microstack.Base.Dict.{Dict, insert}
use microstack.Machine.{Host, read, after_event, value_error, file_not_found_error}
use microstack.Machine.Monad.{Outcome, ok, raised, Action, ◌>>=◌}
use microstack.Shell.{env_get}
use text.Mathlib.Text.{starts_with}

-- `key, val = …` of the fields, and the assignment.
unfoldable pub assign_fields : List String → Dict String → Outcome (Dict String)
assign_fields (key ∷ val ∷ []) env = ok (insert (strip key) (strip val) env)
assign_fields _ env = raised (value_error "unpack")

-- The body of the loop, for one line.
unfoldable pub rc_line : String → Dict String → Outcome (Dict String)
unfolding assign_fields
rc_line line env =
    if starts_with line "export" then assign_fields (split b'=' (slice_from 7 line)) env else ok env

-- What was assigned before a line that raises stays in the environment.
unfoldable pub rc_lines : List String → Action (Unit {0})
unfolding rc_line
rc_lines [] w = (ok tt, w)
rc_lines (line ∷ lines) w = elim (rc_line line w.env) [
  | ok env ↦ rc_lines lines (record w { env = env })
  | raised e ↦ (raised e, w)
]

-- `open(path)` for reading, and its lines.
unfoldable pub read_lines : Host → String → Action (List String)
read_lines h path w = elim (h.content w.log path) [
  | none ↦ (raised (file_not_found_error path), w)
  | some text ↦ (ok (readlines text), after_event (read path) w)
]

unfoldable pub load_rc : Host → Action (Unit {0})
unfolding env_get read_lines rc_lines
load_rc h = do
  common ← env_get "SNAP_COMMON"
  lines ← read_lines h (common <> "/etc/microstack.rc")
  rc_lines lines
