-- ===== src/Clustering/ConnectionString.antt =====
-- `ConnectionString._validate` and `ConnectionString.after`. What the libraries decode is a
-- parameter; the checks on it are the program's own.
pub mod Checks
use microstack.Base.{
  ℕ, String, ◌<>◌, ◌==◌, ◌==ℕ◌, Bool, true, false, not, ◌&&◌, Option, none, some, List, [], ◌∷◌,
  codes, every, length, ltb, if◌then◌else◌,
}
use microstack.Base.Dict.{Dict, lookup}
use microstack.Base.Hex.{hex}
use microstack.Machine.{Host, key_error, attribute_error, type_error, value_error}
use microstack.Machine.Monad.{Outcome, ok, raised, Action, lift, ◌>>=◌}
use microstack.Shell.{config_set}
use microstack.Clustering.Hostname.{valid_hostname}

-- A value of the decoded dict: `sized` is a list or a dict, known by the number of its items, and
-- `other` is a value that has no length.
pub data Packed : Type 0 where
  nil : Packed
  text : String → Packed
  bytes : List ℕ → Packed
  sized : ℕ → Packed
  other : Packed

-- How `msgpackutils.loads` ends: the dict, another value, or an exception, all of which the code
-- catches with one outcome.
pub data Unpacked : Type 0 where
  unpacked : Dict Packed → Unpacked
  no_dict fails : Unpacked

-- `base64.decode_as_bytes` (`none` where it raises TypeError), `msgpackutils.loads`, and whether
-- netaddr takes a value for an IPv4 or IPv6 address. `repr` is Python's `str` of what is no text.
pub record Codec : Type 0 where
  pub decode : String → Option (List ℕ)
  pub loads : List ℕ → Unpacked
  pub is_address : Packed → Bool
  pub repr : Packed → String

-- What `_validate` does: it stores the dict and accepts, or rejects, or raises.
pub data Checked : Type 0 where
  accepted : Dict Packed → Checked
  rejected : Checked

-- A check that passes, raises the ValueError for which a message is printed, or raises another.
pub data Test : Type 0 where
  passes fails_value fails_type : Test

-- `_validate_hostname`
unfoldable pub test_hostname : Option Packed → Test
test_hostname (some (text s)) = if valid_hostname (codes s) then passes else fails_value
test_hostname (some (bytes [])) = fails_value
test_hostname (some (bytes _)) = fails_type
test_hostname (some (sized n)) = if n ==ℕ 0 then fails_value else fails_type
test_hostname (some other) = fails_type
test_hostname _ = fails_value

-- `_validate_address`
unfoldable pub test_address : Codec → Option Packed → Test
test_address c (some nil) = fails_value
test_address c (some value) = if c.is_address value then passes else fails_value
test_address c none = fails_value

abbrev pub of_length : ℕ → ℕ → Test
of_length expected actual = if actual ==ℕ expected then passes else fails_value

-- `_validate_fingerprint`, which does not test for None.
unfoldable pub test_fingerprint : Option Packed → Test
test_fingerprint (some (bytes b)) = of_length 32 (length b)
test_fingerprint (some (text s)) = of_length 32 (length (codes s))
test_fingerprint (some (sized n)) = of_length 32 n
test_fingerprint _ = fails_type

-- `_validate_credential_id` and `_validate_credential_secret`
unfoldable pub test_credential : Option Packed → Test
test_credential (some (bytes b)) = of_length 32 (length b)
test_credential (some (text s)) = of_length 32 (length (codes s))
test_credential (some (sized n)) = of_length 32 n
test_credential (some other) = fails_type
test_credential _ = fails_value

-- A check with its `except ValueError`, and the checks that follow it.
abbrev pub guarded : Test → Outcome Checked → Outcome Checked
guarded passes rest = rest
guarded fails_value rest = ok rejected
guarded fails_type rest = raised (type_error "len")

-- An address passes, and what is no address is checked as a hostname.
unfoldable pub test_host : Codec → Option Packed → Test
unfolding test_address test_hostname
test_host c host = elim (test_address c host) [
  | passes ↦ passes
  | fails_value ↦ test_hostname host
  | fails_type ↦ fails_type
]

unfoldable pub check_info : Codec → Dict Packed → Outcome Checked
unfolding test_host test_fingerprint test_credential
check_info c info = guarded (test_host c (lookup "hostname" info)) (
    guarded (test_fingerprint (lookup "fingerprint" info)) (
      guarded (test_credential (lookup "id" info))
        (guarded (test_credential (lookup "secret" info)) (ok (accepted info)))))

unfoldable pub check_unpacked : Codec → Unpacked → Outcome Checked
unfolding check_info
check_unpacked c (unpacked info) = check_info c info
check_unpacked c no_dict = raised (attribute_error "get")
check_unpacked c fails = ok rejected

unfoldable pub check_decoded : Codec → Option (List ℕ) → Outcome Checked
unfolding check_unpacked
check_decoded c none = ok rejected
check_decoded c (some data_bytes) = check_unpacked c (c.loads data_bytes)

-- `answer.encode('ascii')`
abbrev pub is_ascii : String → Bool
is_ascii s = every (λ c. ltb c 128) (codes s)

-- `_validate` of a text: `encode` raises UnicodeEncodeError, a ValueError, outside ASCII.
unfoldable pub validate : Codec → String → Outcome Checked
unfolding check_decoded
validate c answer =
    if is_ascii answer then check_decoded c (c.decode answer) else raised (value_error "ascii")

-- `self._conn_info[key]`
abbrev pub info_item : String → Dict Packed → Outcome Packed
info_item key info = elim (lookup key info) [ none ↦ raised (key_error key) | some v ↦ ok v ]

-- `value.hex()`, a method of bytes.
abbrev pub hex_of : Packed → Outcome String
hex_of (bytes b) = ok (hex b)
hex_of _ = raised (attribute_error "hex")

-- `f'{value}'`
abbrev pub packed_text : Codec → Packed → String
packed_text c (text s) = s
packed_text c value = c.repr value

-- `after`: the parts of the connection string are stored.
unfoldable pub after : Host → Codec → Dict Packed → Action (Unit {0})
after h c info = do
  host ← lift (info_item "hostname" info)
  fingerprint ← lift (info_item "fingerprint" info)
  digits ← lift (hex_of fingerprint)
  id ← lift (info_item "id" info)
  secret ← lift (info_item "secret" info)
  config_set h (
      ("config.cluster.hostname", packed_text c host)
      ∷ ("config.cluster.fingerprint", digits)
      ∷ ("config.cluster.credential-id", packed_text c id)
      ∷ ("config.cluster.credential-secret", packed_text c secret)
      ∷ [])
