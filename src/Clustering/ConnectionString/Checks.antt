-- ===== src/Clustering/ConnectionString/Checks.antt =====
-- What an accepted connection string is known to hold.
use microstack.Base.{
  ℕ, String, ◌≡◌, refl, ap, subst, ◌⊎◌, inl, inr, Bool-cases, true, Option, none, some, List, [],
  ◌∷◌, codes, length, arith,
}
use microstack.Base.Dict.{Dict, lookup}
use microstack.Machine.{value_error}
use microstack.Machine.Monad.{Outcome, ok, raised}
use microstack.Clustering.Hostname.{valid_hostname}
use microstack.Clustering.ConnectionString.{
  nil, other, fails_value, fails_type, guarded, no_dict, fails, Packed, text, bytes, sized, Codec,
  Unpacked, unpacked, Checked, accepted, Test, passes, test_host, test_fingerprint, test_credential,
  check_info, check_unpacked, check_decoded, validate, is_ascii,
}

-- A value of length 32: a text, bytes, or a list or a dict of 32 items.
abbrev pub Has32 : Option Packed → Type 0
Has32 (some (text s)) = length (codes s) ≡ 32
Has32 (some (bytes b)) = length b ≡ 32
Has32 (some (sized n)) = n ≡ 32
Has32 _ = ⊥

-- A value that netaddr takes for an address, or a text that is a valid hostname.
abbrev pub IsReachable : Codec → Option Packed → Type 0
IsReachable c (some (text s)) = (c.is_address (text s) ≡ true) ⊎ (valid_hostname (codes s) ≡ true)
IsReachable c (some value) = c.is_address value ≡ true
IsReachable c none = ⊥

pub record IsUsable (c : Codec) (info : Dict Packed) : Type 0 where
  pub host : IsReachable c (lookup "hostname" info)
  pub fingerprint : Has32 (lookup "fingerprint" info)
  pub id : Has32 (lookup "id" info)
  pub secret : Has32 (lookup "secret" info)

fingerprint_of : (o : Option Packed) → test_fingerprint o ≡ passes → Has32 o
unfolding test_fingerprint
fingerprint_of (some (text s)) e = ground arith
fingerprint_of (some (bytes b)) e = ground arith
fingerprint_of (some (sized n)) e = ground arith
fingerprint_of (some nil) e = absurd (cc)
fingerprint_of (some other) e = absurd (cc)
fingerprint_of none e = absurd (cc)

credential_of : (o : Option Packed) → test_credential o ≡ passes → Has32 o
unfolding test_credential
credential_of (some (text s)) e = ground arith
credential_of (some (bytes b)) e = ground arith
credential_of (some (sized n)) e = ground arith
credential_of (some nil) e = absurd (cc)
credential_of (some other) e = absurd (cc)
credential_of none e = absurd (cc)

module _ (c : Codec) where
  host_of : (o : Option Packed) → test_host c o ≡ passes → IsReachable c o
  unfolding test_host
  host_of (some (text s)) e = elim (Bool-cases (c.is_address (text s))) [
    | inl a ↦ inl a
    | inr n ↦ inr (ground arith)
  ]
  host_of (some (bytes [])) e = ground arith
  host_of (some (bytes (b ∷ bs))) e = ground arith
  host_of (some (sized n)) e = ground arith
  host_of (some nil) e = absurd (cc)
  host_of (some other) e = ground arith
  host_of none e = absurd (cc)

  guarded_cases :
      (t : Test) (rest : Outcome Checked) (info : Dict Packed)
      → guarded t rest ≡ ok (accepted info)
      → (t ≡ passes) × (rest ≡ ok (accepted info))
  guarded_cases passes rest info e = (refl, e)
  guarded_cases fails_value rest info e = absurd (cc)
  guarded_cases fails_type rest info e = absurd (cc)

  check_info-IsUsable :
      (info found : Dict Packed)
      → check_info c info ≡ ok (accepted found)
      → (info ≡ found) × IsUsable c info
  unfolding check_info
  check_info-IsUsable info found e =
      let (h, e₁) = guarded_cases (test_host c (lookup "hostname" info)) _ found e in
      let (f, e₂) = guarded_cases (test_fingerprint (lookup "fingerprint" info)) _ found e₁ in
      let (i, e₃) = guarded_cases (test_credential (lookup "id" info)) _ found e₂ in
      let (s, e₄) = guarded_cases (test_credential (lookup "secret" info)) _ found e₃ in
      (
        cc,
        record {
          host = host_of _ h;
          fingerprint = fingerprint_of _ f;
          id = credential_of _ i;
          secret = credential_of _ s;
        },
      )

  unpacked_of :
      (u : Unpacked) (info : Dict Packed)
      → check_unpacked c u ≡ ok (accepted info)
      → (u ≡ unpacked info) × IsUsable c info
  unfolding check_unpacked
  unpacked_of (unpacked d) info e =
      let (same, usable) = check_info-IsUsable d info e in
      (ap unpacked same, subst (IsUsable c) same usable)
  unpacked_of no_dict info e = absurd (cc)
  unpacked_of fails info e = absurd (cc)

  decoded_of :
      (o : Option (List ℕ)) (info : Dict Packed)
      → check_decoded c o ≡ ok (accepted info)
      → (b : List ℕ) × (o ≡ some b) × (c.loads b ≡ unpacked info) × IsUsable c info
  unfolding check_decoded
  decoded_of (some b) info e =
      let (u, usable) = unpacked_of (c.loads b) info e in (b, refl, u, usable)
  decoded_of none info e = absurd (cc)

  -- An accepted connection string is ASCII, was decoded to the dict that is kept, and this dict
  -- names an address or a valid hostname, and a fingerprint, an id and a secret of length 32. The
  -- lengths are those of Python's len, so bytes, a text, and a list or a dict of 32 items pass.
  pub validate-IsUsable :
      (answer : String) (info : Dict Packed)
      → validate c answer ≡ ok (accepted info)
      → (is_ascii answer ≡ true)
        × (data_bytes : List ℕ) × (c.decode answer ≡ some data_bytes)
        × (c.loads data_bytes ≡ unpacked info)
        × IsUsable c info
  unfolding validate
  validate-IsUsable answer info e = elim (Bool-cases (is_ascii answer)) [
    | inl a ↦
        let (b, d, l, usable) = decoded_of (c.decode answer) info (rw a at e) in
        (a, b, d, l, usable)
    | inr n ↦ absurd (refused (rw n at e))
  ]
    where
      refused : ◌≡◌ {A = Outcome Checked} (raised (value_error "ascii")) (ok (accepted info)) → ⊥
      refused p = cc

  host_passes :
      (s : String)
      → (c.is_address (text s) ≡ true) ⊎ (valid_hostname (codes s) ≡ true)
      → test_host c (some (text s)) ≡ passes
  unfolding test_host
  host_passes s r = ground arith

  -- Conversely, an ASCII text that decodes to a dict with these parts is accepted with this dict.
  pub validate_accepts :
      (answer : String) (data_bytes fingerprint : List ℕ) (host id secret : String)
      (info : Dict Packed)
      → is_ascii answer ≡ true
      → c.decode answer ≡ some data_bytes
      → c.loads data_bytes ≡ unpacked info
      → lookup "hostname" info ≡ some (text host)
      → (c.is_address (text host) ≡ true) ⊎ (valid_hostname (codes host) ≡ true)
      → lookup "fingerprint" info ≡ some (bytes fingerprint)
      → length fingerprint ≡ 32
      → lookup "id" info ≡ some (text id)
      → length (codes id) ≡ 32
      → lookup "secret" info ≡ some (text secret)
      → length (codes secret) ≡ 32
      → validate c answer ≡ ok (accepted info)
  unfolding validate
  validate_accepts answer data_bytes fingerprint host id secret info a d l h r f lf i li s ls =
      rw (a, d)
        (unfold check_decoded check_unpacked check_info in
          rw (l, h, f, i, s, host_passes host r)
            (unfold test_fingerprint test_credential in rw (lf, li, ls)))
