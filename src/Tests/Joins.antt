-- ===== src/Tests/Joins.antt =====
-- A compute node that joins a control node, and the name of a control node.
use microstack.Base.{
  ℕ, ◌≤◌, All, length, codes, String, ◌==◌, ◌≡◌, refl, true, some, List, if◌then◌else◌,
}
use microstack.Json.{Json, str, obj, Fields, field, end}
use microstack.Machine.{Host}
use microstack.Cluster.Joined.{asked, told}
use microstack.Clustering.Hostname.{
  valid_hostname, without_dot, labels, allowed, is_letter_or_dash, chop_newline, in_class, last_or,
  but_last,
}
use microstack.Clustering.Hostname.Bounds.{IsShort, valid_hostname-IsShort}
use microstack.Tests.{calm}

abbrev pub given : Fields
given = field "nova-password" (str "n0va") end

abbrev pub config : Json
config = obj (
    field "credentials" (obj given)
      (field "network" (obj (field "control-ip" (str "10.20.20.1") end)) end))

abbrev cluster : Fields
cluster = field "hostname" (str "control") (
    field "fingerprint" (str "ab")
      (field "credential-id" (str "id") (field "credential-secret" (str "secret") end)))

abbrev control_host : Host
control_host = record (calm "{}" "") {
  loads = λ text. if text == "asked" then some (asked (str "id") (str "secret")) else some config;
}

abbrev compute_host : Host
compute_host = record (calm "{}" "") {
  loads = λ text. if text == "told" then some (told config) else some (obj cluster);
}

-- The texts of the two documents that are exchanged.
abbrev pub dumps : Json → String
dumps (obj (field key value rest)) = if key == "config" then "told" else "asked"
dumps _ = "null"

-- A name that a newline ends is accepted.
abbrev named : List ℕ
named = codes "node-1.example\n"

named_accepted : valid_hostname named ≡ true
unfolding valid_hostname without_dot labels allowed is_letter_or_dash chop_newline in_class last_or
    but_last
named_accepted = refl

valid_hostname-IsShort_example :
    (1 ≤ length named)
    × (length (without_dot named) ≤ 253)
    × (length named ≤ 254)
    × All IsShort (labels (without_dot named))
valid_hostname-IsShort_example = valid_hostname-IsShort named named_accepted
