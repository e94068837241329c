-- ===== src/Launch/Server.antt =====
-- Servers: creating, deleting and listing them, and the loop of `check_server`.
use microstack.Base.{
  ℕ, zero, suc, ◌+◌, String, ◌<>◌, ◌==◌, Bool, false, not, ◌&&◌, ◌||◌, Option, none, some, List, [],
  ◌∷◌, ◌++◌, contains, leb, ltb, if◌then◌else◌,
}
use microstack.Json.{Json, str, arr, obj, Items, nil, cons, Fields, end, get, truthy}
use microstack.Machine.{Host, json_decode_error, key_error, type_error, still_waiting}
use microstack.Machine.Monad.{
  Outcome, ok, raised, Action, pure, raise, lift, or_raise, and_then, ◌>>=◌, ◌>>◌,
}
use microstack.Shell.{to_str, check, check_output, sleep}

-- The parsed arguments; `name` is chosen by `main`.
pub record Args : Type 0 where
  pub image : String
  pub key : String
  pub flavor : String
  pub net_id : String
  pub wait : Bool
  pub retry : Bool
  pub availability_zone : Option String

-- `ret['id']`: an id that is no text could not be an argument of the next command.
unfoldable pub id_of : Json → Outcome String
id_of (obj fields) = elim (get "id" fields) [
  | some (str s) ↦ ok s
  | some _ ↦ raised (type_error "id")
  | none ↦ raised (key_error "id")
]
id_of _ = raised (type_error "id")

abbrev zone_arguments : Option String → List String
zone_arguments none = []
zone_arguments (some zone) = if zone == "" then [] else "--availability-zone" ∷ zone ∷ []

abbrev pub create_command : String → Args → List String
create_command name args =
    ("openstack"
      ∷ "server"
      ∷ "create"
      ∷ "--flavor"
      ∷ args.flavor
      ∷ "--image"
      ∷ args.image
      ∷ "--nic"
      ∷ ("net-id=" <> args.net_id)
      ∷ "--key-name"
      ∷ args.key
      ∷ name
      ∷ "--format"
      ∷ "json"
      ∷ [])
    ++ zone_arguments args.availability_zone

unfoldable pub create_server : Host → String → Args → Action String
unfolding id_of
create_server h name args = do
  text ← check_output h (create_command name args)
  ret ← or_raise (h.loads text) (json_decode_error text)
  lift (id_of ret)

unfoldable pub delete_server : Host → String → Action (Unit {0})
delete_server h server_id = check h ("openstack" ∷ "server" ∷ "delete" ∷ server_id ∷ [])

-- `value == server_id`
abbrev is_text : String → Json → Bool
is_text s (str t) = t == s
is_text s _ = false

-- `server['Status']`: a value that is no text stands as Python prints it, and one that is false as
-- the empty text.
unfoldable pub status_of : Host → Fields → Outcome String
status_of h fields = elim (get "Status" fields) [
  | some value ↦ ok (if truthy value then to_str h value else "")
  | none ↦ raised (key_error "Status")
]

-- The body of the `for` loop: the status after one entry of the list.
unfoldable pub entry_status : Host → Json → String → String → Outcome String
unfolding status_of
entry_status h (obj fields) server_id status = elim (get "ID" fields) [
  | some id ↦ if is_text server_id id then status_of h fields else ok status
  | none ↦ raised (key_error "ID")
]
entry_status h _ server_id status = raised (type_error "server")

unfoldable pub scan : Host → Items → String → String → Outcome String
unfolding and_then
scan h nil server_id status = ok status
scan h (cons server rest) server_id status =
    and_then (entry_status h server server_id status) (scan h rest server_id)

-- The status of a server in a list of servers, or the old one if the server is not listed. An
-- empty dict or text is passed over like an empty list.
unfoldable pub listed_status : Host → Json → String → String → Outcome String
unfolding scan entry_status
listed_status h (arr servers) server_id status = scan h servers server_id status
listed_status h (obj end) server_id status = ok status
listed_status h (str s) server_id status =
    if s == "" then ok status else raised (type_error "server")
listed_status h _ server_id status = raised (type_error "list")

-- What one round of the loop decides.
pub data Verdict : Type 0 where
  stop wait recreate again : String → Verdict

abbrev pub max_retries : ℕ
max_retries = 10

abbrev pub max_waits : ℕ
max_waits = 1000

-- From the test for errors on.
unfoldable pub judge_error : Args → String → ℕ → Verdict
judge_error args status retries =
    if contains ("ERROR" ∷ "BUILD (stuck)" ∷ []) status
    then (if not args.retry || ltb max_retries retries then stop status else recreate status)
    else if status == "ACTIVE"
    then stop status
    else again status

unfoldable pub judge : Args → String → ℕ → ℕ → Verdict
judge args status waits retries =
    if status == ""
    then stop status
    else if not args.wait && not args.retry
    then stop status
    else if status == "BUILD"
    then (if leb waits max_waits then wait status else judge_error args "BUILD (stuck)" retries)
    else judge_error args status retries

-- The variables of the loop.
pub record Poll : Type 0 where
  pub status : String
  pub server_id : String
  pub waits : ℕ
  pub retries : ℕ

abbrev pub list_command : List String
list_command = "openstack" ∷ "server" ∷ "list" ∷ "--format" ∷ "json" ∷ []

-- The status that a round sees.
unfoldable pub observe : Host → Poll → Action String
observe h p = do
  text ← check_output h list_command
  servers ← or_raise (h.loads text) (json_decode_error text)
  lift (listed_status h servers p.server_id p.status)

-- The retry of a launch that failed.
unfoldable pub replace : Host → String → Args → String → Action String
replace h name args server_id = do delete_server h server_id; create_server h name args

-- The rest of a round, whose `continue` is the loop.
unfoldable pub follow :
    Host
    → String
    → Args
    → Poll
    → (Poll → Action (String × String))
    → Verdict
    → Action (String × String)
follow h name args p loop (stop s) = pure (s, p.server_id)
follow h name args p loop (wait s) = do sleep h; loop (record p { status = s; waits = p.waits + 1 })
follow h name args p loop (recreate s) = do
  server_id ← replace h name args p.server_id
  loop (record { status = s; server_id = server_id; waits = 0; retries = p.retries + 1 })
follow h name args p loop (again s) = loop (record p { status = s })

-- `while True`, for a number of rounds.
unfoldable pub poll_loop : Host → String → Args → ℕ → Poll → Action (String × String)
poll_loop h name args zero p = raise still_waiting
poll_loop h name args (suc rounds) p = do
  status ← observe h p
  follow h name args p (poll_loop h name args rounds) (judge args status p.waits p.retries)

abbrev pub start_poll : String → Poll
start_poll server_id = record { status = "Unknown"; server_id = server_id; waits = 0; retries = 0 }

unfoldable pub check_server : Host → String → String → Args → Action (String × String)
unfolding poll_loop
check_server h name server_id args = poll_loop h name args h.patience (start_poll server_id)
