-- ===== src/Services/Networks/Rules/Missing.antt =====
-- Which security rules are made.
use mathlib.Core.List.{append_assoc}
use microstack.Base.{
  String, ◌≡◌, refl, Bool, true, false, not, ◌&&◌, ◌||◌, List, [], ◌∷◌, ◌++◌, if◌then◌else◌, strip,
  arith, ap, ◌∙◌, subst, sym, some,
}
use microstack.Json.{is_str, Json, arr, Items, nil, cons}
use microstack.Machine.{Event, command, Host, World, json_decode_error}
use microstack.Machine.Monad.{
  or_raise-eq-ok, lift-eq-ok, ok, raised, lift, or_raise, when, and_then, and_then-eq-ok,
  bind-eq-ok,
}
use microstack.Shell.{check, check_output}
use microstack.Shell.Laws.{check_output-eq-ok, check-eq-ok}
use microstack.Question.{Answer}
use microstack.Cluster.Client.{item}
use microstack.Services.Networks.Rules.{
  Found, none_found, scan_rule, scan_rules, scan_document, security_yes, make_rules, group_command,
  rules_command, ping_command, ssh_command,
}

-- Whether a rule is of a group and a protocol.
abbrev pub is_rule : String → String → Json → Bool
is_rule group_id protocol rule =
    has "Security Group" group_id rule && has "IP Protocol" protocol rule
  where
    has : String → String → Json → Bool
    has key value rule = elim (item key rule) [ ok v ↦ is_str value v | raised _ ↦ false ]

abbrev pub any_rule : String → String → Items → Bool
any_rule group_id protocol nil = false
any_rule group_id protocol (cons rule rules) =
    is_rule group_id protocol rule || any_rule group_id protocol rules

scan_rule-is_rule :
    (group_id : String) (rule : Json) (found seen : Found)
    → scan_rule group_id rule found ≡ ok seen
    → (seen.ping ≡ found.ping || is_rule group_id "icmp" rule)
      × (seen.ssh ≡ found.ssh || is_rule group_id "tcp" rule)
unfolding scan_rule and_then
scan_rule-is_rule group_id rule found seen e = ground arith

scan_rules-any_rule :
    (group_id : String) (rules : Items) (found seen : Found)
    → scan_rules group_id rules found ≡ ok seen
    → (seen.ping ≡ found.ping || any_rule group_id "icmp" rules)
      × (seen.ssh ≡ found.ssh || any_rule group_id "tcp" rules)
unfolding scan_rules
scan_rules-any_rule group_id nil found seen e = ground arith
scan_rules-any_rule group_id (cons rule rules) found seen e =
    let (next, p, q) =
      and_then-eq-ok (scan_rule group_id rule found) (scan_rules group_id rules) e in
    let (a, b) = scan_rule-is_rule group_id rule found next p in
    let (c, d) = scan_rules-any_rule group_id rules next seen q in ground arith

-- The commands that make the rules that are missing, newest first.
abbrev pub rule_events : String → Bool → Bool → List Event
rule_events group_id ping ssh =
    (if ssh then [] else command (ssh_command group_id) ∷ [])
    ++ (if ping then [] else command (ping_command group_id) ∷ [])

when-check-eq-ok :
    (h : Host) (b : Bool) (args : List String) (w w' : World)
    → when (not b) (check h args) w ≡ (ok tt, w')
    → w'.log ≡ (if b then [] else command args ∷ []) ++ w.log
unfolding when
when-check-eq-ok h true args w w' e = cc
when-check-eq-ok h false args w w' e = let (s, q) = check-eq-ok h args w w' e in ap (λ v. v.log) q

make_rules-log :
    (h : Host) (group_id : String) (found : Found) (w w' : World)
    → make_rules h group_id found w ≡ (ok tt, w')
    → w'.log ≡ rule_events group_id found.ping found.ssh ++ w.log
unfolding make_rules
make_rules-log h group_id found w w' e =
    let (_, v, p, q) =
      bind-eq-ok (when (not found.ping) (check h (ping_command group_id))) _ w w' e in
    let a = when-check-eq-ok h found.ping (ping_command group_id) w v p in
    let b = when-check-eq-ok h found.ssh (ssh_command group_id) v w' q in
    rw (append_assoc, b, a) refl

scanned :
    (rules : Items) (g : String) (d : Json) (f : Found)
    → some d ≡ some (arr rules)
    → scan_document g d none_found ≡ ok f
    → scan_rules g rules none_found ≡ ok f
unfolding scan_document
scanned rules g d f same e = let q : d ≡ arr rules = cc in rw q at e

-- A setup of the security rules that returns has read the group and the rules, and has then made
-- the rule for ping unless the group has one for icmp, and the rule for ssh unless it has one for
-- tcp, and has run no other command.
pub security_yes-log :
    (h : Host) (a : Answer) (w w' : World) (rules : Items)
    → h.loads (strip (h.output (command group_command ∷ w.log) rules_command)) ≡ some (arr rules)
    → security_yes h a w ≡ (ok tt, w')
    → w'.log
      ≡ rule_events
          (strip (h.output w.log group_command))
          (any_rule (strip (h.output w.log group_command)) "icmp" rules)
          (any_rule (strip (h.output w.log group_command)) "tcp" rules)
        ++ (command rules_command ∷ command group_command ∷ w.log)
unfolding security_yes scan_document
security_yes-log h a w w' rules l e =
    let (g, v₁, p₁, e₁) = bind-eq-ok (check_output h group_command) _ w w' e in
    let (t, v₂, p₂, e₂) = bind-eq-ok (check_output h rules_command) _ v₁ w' e₁ in
    let (d, v₃, p₃, e₃) = bind-eq-ok (or_raise (h.loads t) (json_decode_error t)) _ v₂ w' e₂ in
    let (f, v₄, p₄, e₄) = bind-eq-ok (lift (scan_document g d none_found)) _ v₃ w' e₃ in
    let (_, gq, w₁) = check_output-eq-ok h group_command w v₁ g p₁ in
    let (_, tq, w₂) = check_output-eq-ok h rules_command v₁ v₂ t p₂ in
    let (dq, w₃) = or_raise-eq-ok (h.loads t) _ v₂ v₃ d p₃ in
    let (fq, w₄) = lift-eq-ok (scan_document g d none_found) v₃ v₄ f p₄ in
    let text = subst (λ v. t ≡ strip (h.output v.log rules_command)) w₁ tq in
    let listed : some d ≡ some (arr rules) = sym dq ∙ ap h.loads text ∙ l in
    let (ping, ssh) = scan_rules-any_rule g rules none_found f (scanned rules g d f listed fq) in
    let logs : v₄.log ≡ command rules_command ∷ command group_command ∷ w.log = cc in
    rw (make_rules-log h g f v₄ w' e₄, ping, ssh, logs, gq) refl
