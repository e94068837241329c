-- ===== src/Tests/Admissions.antt =====
-- A control node and a compute node, from the connection string to the join.
use microstack.Base.{ℕ, String, ◌==◌, some, List, ◌∷◌, contains, if◌then◌else◌}
use microstack.Base.Hex.{hex}
use microstack.Json.{Json, str, obj, Fields, field, end}
use microstack.Machine.{Host}
use microstack.Machine.Monad.{◌>>◌}
use microstack.Cluster.Joined.{asked, told}
use microstack.Tests.{calm}
use microstack.Tests.Clusters.{zeros, an_id, a_secret}
use microstack.Tests.Joins.{config}

abbrev address : String
address = "10.20.20.1"

-- What `snapctl get` prints on the control node, by its key.
abbrev printed : List String → String
printed args =
    if contains args "config.cluster.role"
    then "role"
    else if contains args "config.credentials.nova-password"
    then "password"
    else if contains args "config.network.control-ip"
    then "address"
    else if contains args "config.cluster.fingerprint"
    then "digest"
    else "config"

abbrev document : String → Json
document text =
    if text == "role"
    then str "control"
    else if text == "password"
    then str "n0va"
    else if text == "address"
    then str address
    else if text == "digest"
    then str (hex (zeros 32))
    else if text == "asked"
    then asked (str an_id) (str a_secret)
    else config

abbrev controller : Host
controller = record (calm "" "") {
  output = λ _ args. printed args;
  loads = λ text. some (document text);
}

abbrev kept : Fields
kept = field "hostname" (str address) (
    field "fingerprint" (str (hex (zeros 32)))
      (field "credential-id" (str an_id) (field "credential-secret" (str a_secret) end)))

abbrev joiner : Host
joiner = record (calm "{}" "") {
  loads = λ text. if text == "told" then some (told config) else some (obj kept);
}
