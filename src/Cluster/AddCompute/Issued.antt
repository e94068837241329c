-- ===== src/Cluster/AddCompute/Issued.antt =====
-- A connection string from one node to another.
use microstack.Base.{
  ℕ, ◌<◌, String, ◌<>◌, ◌≡◌, ◌⊎◌, refl, ap, true, some, List, [], ◌∷◌, All, codes, length,
}
use microstack.Base.Dict.{Dict, lookup}
use microstack.Base.Hex.{hex, from_hex-hex}
use microstack.Json.{str}
use microstack.Machine.{Host, World, command, after_event}
use microstack.Machine.Monad.{ok, and_then, ◌>>=◌}
use microstack.Shell.{check, config_set}
use microstack.Clustering.Hostname.{valid_hostname}
use microstack.Clustering.ConnectionString.{
  Packed, text, bytes, Codec, unpacked, accepted, validate, is_ascii, after,
}
use microstack.Clustering.ConnectionString.Checks.{validate_accepts}
use microstack.Cluster.AddCompute.{Issuer, connection_data, pack, bytes_of, digest_of}

-- What the two nodes' codecs do to a dict: its text is ASCII, and is read back as this dict.
pub record Agrees (i : Issuer) (c : Codec) (info : Dict Packed) : Type 0 where
  pub is_ascii_encode : is_ascii (i.encode (i.dumps info)) ≡ true
  pub decode-encode : c.decode (i.encode (i.dumps info)) ≡ some (i.dumps info)
  pub loads-dumps : c.loads (i.dumps info) ≡ unpacked info

abbrev pub issued : String → List ℕ → String → String → Dict Packed
issued host fingerprint id secret =
    ("hostname", text host)
    ∷ ("fingerprint", bytes fingerprint)
    ∷ ("id", text id)
    ∷ ("secret", text secret)
    ∷ []

-- The command by which `after` stores the parts.
abbrev pub stored_parts : String → List ℕ → String → String → List String
stored_parts host fingerprint id secret =
    "snapctl"
    ∷ "set"
    ∷ ("config.cluster.hostname" <> "=" <> host)
    ∷ ("config.cluster.fingerprint" <> "=" <> hex fingerprint)
    ∷ ("config.cluster.credential-id" <> "=" <> id)
    ∷ ("config.cluster.credential-secret" <> "=" <> secret)
    ∷ []

bytes_of-hex : (b : List ℕ) → All (λ d. d < 256) b → bytes_of (str (hex b)) ≡ ok (bytes b)
unfolding bytes_of digest_of
bytes_of-hex b each = ap digest_of (from_hex-hex b each)

pub connection_data-hex :
    (host id secret : String) (b : List ℕ)
    → All (λ d. d < 256) b
    → connection_data (str host) (str (hex b)) id secret ≡ ok (issued host b id secret)
unfolding connection_data and_then pack
connection_data-hex host id secret b each =
    ap
      (λ o. and_then o λ digest. ok (
        ("hostname", text host)
        ∷ ("fingerprint", digest)
        ∷ ("id", text id)
        ∷ ("secret", text secret)
        ∷ []))
      (bytes_of-hex b each)

module _ (i : Issuer) (c : Codec) where
  -- If the codecs agree on it, a connection string that a control node makes of an address or
  -- valid hostname, of a fingerprint of 32 bytes that its configuration holds in hexadecimal, and
  -- of an id and a secret of length 32, is accepted by the compute node, which stores these four,
  -- the fingerprint in the same digits.
  pub issued-stored :
      (h : Host) (w : World) (host id secret : String) (fingerprint : List ℕ)
      → Agrees i c (issued host fingerprint id secret)
      → (c.is_address (text host) ≡ true) ⊎ (valid_hostname (codes host) ≡ true)
      → All (λ b. b < 256) fingerprint
      → length fingerprint ≡ 32
      → length (codes id) ≡ 32
      → length (codes secret) ≡ 32
      → h.status w.log (stored_parts host fingerprint id secret) ≡ 0
      → (connection_data (str host) (str (hex fingerprint)) id secret
          ≡ ok (issued host fingerprint id secret))
        × (validate c (i.encode (i.dumps (issued host fingerprint id secret)))
            ≡ ok (accepted (issued host fingerprint id secret)))
        × (after h c (issued host fingerprint id secret) w
            ≡ (ok tt, after_event (command (stored_parts host fingerprint id secret)) w))
  issued-stored h w host id secret fingerprint agrees r b lf li ls s = (
    connection_data-hex host id secret fingerprint b,
    (unfold lookup in
        validate_accepts c _ (i.dumps (issued host fingerprint id secret)) fingerprint host id
          secret _ agrees.is_ascii_encode agrees.decode-encode agrees.loads-dumps refl r refl lf
          refl li refl ls),
    (unfold after config_set check lookup ◌>>=◌ in rw s),
  )
