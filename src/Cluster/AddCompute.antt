-- ===== src/Cluster/AddCompute.antt =====
-- tools/cluster/cluster/add_compute.py: a control node makes the connection string with which a
-- compute node joins.
pub mod Issued
pub mod Printed
use microstack.Base.{
  ℕ, zero, suc, ◌+◌, String, ◌==◌, Bool, true, false, not, Option, none, some, List, [], ◌∷◌,
  if◌then◌else◌,
}
use microstack.Base.Dict.{Dict}
use microstack.Base.Hex.{from_hex}
use microstack.Json.{Json, null, str, arr, obj, Items, cons, Fields, end, field}
use microstack.Machine.{Host, World, exception, type_error, value_error}
use microstack.Machine.Monad.{
  Outcome, ok, raised, Action, pure, lift, raise_if, and_then, ◌>>=◌, ◌>>◌,
}
use microstack.Cluster.Shell.{config_get}
use microstack.Clustering.ConnectionString.{Packed, nil, text, bytes, sized, other}

-- The libraries: `secrets.token_urlsafe(32)`, Keystone's application credential for a password and
-- a secret (its id and its secret), `msgpackutils.dumps` and `base64.encode_as_text`.
pub record Issuer : Type 0 where
  pub token : World → String
  pub create : World → Json → String → Outcome (String × String)
  pub dumps : Dict Packed → List ℕ
  pub encode : List ℕ → String

-- `token[:n]`
unfoldable pub slice_to : ℕ → String → String
slice_to zero s = ""
slice_to (suc n) String.[] = ""
slice_to (suc n) (String.◌∷◌ c s) = String.◌∷◌ c (slice_to n s)

-- `_create_credential`
unfoldable pub create_credential : Issuer → Host → Action (String × String)
unfolding slice_to
create_credential i h = do
  password ← config_get h ("config.credentials.nova-password" ∷ [])
  λ w. (i.create w password (slice_to 32 (i.token w)), w)

-- The number of items of a list, and of a dict, whose keys differ.
unfoldable pub items_len : Items → ℕ
items_len Items.nil = 0
items_len (cons x rest) = 1 + items_len rest

unfoldable pub fields_len : Fields → ℕ
fields_len end = 0
fields_len (field key value rest) = 1 + fields_len rest

-- A value of the configuration as a value of the dict.
unfoldable pub pack : Json → Packed
unfolding items_len fields_len
pack null = nil
pack (str s) = text s
pack (arr items) = sized (items_len items)
pack (obj fields) = sized (fields_len fields)
pack _ = other

-- What `bytes.fromhex` makes of the digits it reads.
unfoldable pub digest_of : Option (List ℕ) → Outcome Packed
digest_of none = raised (value_error "fromhex")
digest_of (some b) = ok (bytes b)

-- `bytes.fromhex(value)`
unfoldable pub bytes_of : Json → Outcome Packed
unfolding digest_of
bytes_of (str s) = digest_of (from_hex s)
bytes_of _ = raised (type_error "fromhex")

-- The dict `data`.
unfoldable pub connection_data : Json → Json → String → String → Outcome (Dict Packed)
unfolding pack bytes_of
connection_data host fingerprint id secret = and_then (bytes_of fingerprint) λ digest. ok (
    ("hostname", pack host)
    ∷ ("fingerprint", digest)
    ∷ ("id", text id)
    ∷ ("secret", text secret)
    ∷ [])

-- `role != 'control'`
unfoldable pub is_control : Json → Bool
is_control (str s) = s == "control"
is_control _ = false

-- `add_compute`: the connection string that is printed.
unfoldable pub add_compute : Issuer → Host → Action String
unfolding create_credential is_control connection_data
add_compute i h = do
  role ← config_get h ("config.cluster.role" ∷ [])
  raise_if (not (is_control role))
      (exception "Running add-compute is only supported on a control node.")
  (id, secret) ← create_credential i h
  host ← config_get h ("config.network.control-ip" ∷ [])
  fingerprint ← config_get h ("config.cluster.fingerprint" ∷ [])
  entries ← lift (connection_data host fingerprint id secret)
  pure (i.encode (i.dumps entries))
