-- ===== src/Services/Networks/Rules.antt =====
-- SecurityRules: ping and ssh are let in, unless there are rules for them.
pub mod Missing
use microstack.Base.{
  String, ◌==◌, ◌≡◌, refl, Bool, true, false, not, ◌&&◌, ◌||◌, List, [], ◌∷◌, ◌++◌, if◌then◌else◌,
  Bool-cases, inl, inr, arith,
}
use microstack.Json.{is_str, Json, null, bool, num, str, arr, obj, Items, nil, cons, Fields, end}
use microstack.Machine.{
  Event, command, History, Host, World, after_event, type_error, json_decode_error,
}
use microstack.Machine.Monad.{
  Outcome, ok, raised, Action, lift, or_raise, when, and_then, and_then-eq-ok, bind-eq-ok, ◌>>=◌,
  ◌>>◌,
}
use microstack.Shell.{check, check_output}
use microstack.Question.{Answer}
use microstack.Cluster.Client.{item}

-- Whether a rule for ping and a rule for ssh were found.
pub record Found : Type 0 where
  pub ping : Bool
  pub ssh : Bool

-- The body of the loop, for one rule.
unfoldable pub scan_rule : String → Json → Found → Outcome Found
unfolding item is_str and_then
scan_rule group_id rule found = and_then (item "Security Group" rule) (λ group.
    if is_str group_id group
    then and_then (item "IP Protocol" rule) (λ protocol. ok (record {
      ping = found.ping || is_str "icmp" protocol;
      ssh = found.ssh || is_str "tcp" protocol;
    }))
    else ok found)

unfoldable pub scan_rules : String → Items → Found → Outcome Found
unfolding scan_rule and_then
scan_rules group_id nil found = ok found
scan_rules group_id (cons rule rules) found =
    and_then (scan_rule group_id rule found) (scan_rules group_id rules)

-- The loop over a document: what is no list is only passed over where it is empty.
unfoldable pub scan_document : String → Json → Found → Outcome Found
unfolding scan_rules
scan_document group_id (arr rules) found = scan_rules group_id rules found
scan_document group_id (obj end) found = ok found
scan_document group_id (str s) found = if s == "" then ok found else raised (type_error "rule")
scan_document group_id _ found = raised (type_error "rule")

abbrev pub group_command : List String
group_command =
    "openstack" ∷ "security" ∷ "group" ∷ "list" ∷ "--project" ∷ "admin" ∷ "-f" ∷ "value" ∷ "-c"
    ∷ "ID" ∷ []

abbrev pub rules_command : List String
rules_command = "openstack" ∷ "security" ∷ "group" ∷ "rule" ∷ "list" ∷ "--format" ∷ "json" ∷ []

abbrev pub ping_command : String → List String
ping_command group_id =
    "openstack" ∷ "security" ∷ "group" ∷ "rule" ∷ "create" ∷ group_id ∷ "--proto" ∷ "icmp" ∷ []

abbrev pub ssh_command : String → List String
ssh_command group_id =
    "openstack" ∷ "security" ∷ "group" ∷ "rule" ∷ "create" ∷ group_id ∷ "--proto" ∷ "tcp"
    ∷ "--dst-port" ∷ "22" ∷ []

abbrev none_found : Found
none_found = record { ping = false; ssh = false }

-- The rules that are made.
unfoldable pub make_rules : Host → String → Found → Action (Unit {0})
make_rules h group_id found = do
  when (not found.ping) (check h (ping_command group_id))
  when (not found.ssh) (check h (ssh_command group_id))

-- `SecurityRules.yes`
unfoldable pub security_yes : Host → Answer → Action (Unit {0})
unfolding scan_document make_rules
security_yes h answer = do
  group_id ← check_output h group_command
  text ← check_output h rules_command
  rules ← or_raise (h.loads text) (json_decode_error text)
  found ← lift (scan_document group_id rules none_found)
  make_rules h group_id found
