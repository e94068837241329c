-- ===== src/Clustering/Tls/Kept.antt =====
-- When `generate_selfsigned` makes a certificate.
use microstack.Base.{
  ℕ, String, ◌<>◌, ◌≡◌, refl, Bool, true, false, not, ◌&&◌, Option, none, some, List, [], ◌∷◌,
  strip,
}
use microstack.Base.Hex.{hex}
use microstack.Json.{str}
use microstack.Machine.{Event, command, wrote, History, Host, World, after_event}
use microstack.Machine.Monad.{ok, when, ◌>>=◌, ◌>>◌}
use microstack.Shell.{check, check_output, config_get, config_set}
use microstack.Launch.{exists, write_file}
use microstack.Init.Processed.{Accepts}
use microstack.Clustering.Tls.{path_of, path_from, generate_selfsigned}

abbrev pub get_command : String → List String
get_command key = "snapctl" ∷ "get" ∷ "-t" ∷ key ∷ []

abbrev pub cert_command : List String
cert_command = get_command "config.cluster.tls-cert-path"

abbrev pub key_command : List String
key_command = get_command "config.cluster.tls-key-path"

-- A file that is there.
abbrev pub is_there : Option String → Bool
is_there none = false
is_there (some s) = true

-- The configuration names a path.
pub record Names (h : Host) (args : List String) (log : History) (path : String) : Type 0 where
  pub prints : h.status log args ≡ 0
  pub loads : h.loads (strip (h.output log args)) ≡ some (str path)

-- The file can be written, whatever was done before.
abbrev pub Writes : Host → String → Type 0
Writes h path = (log : History) → h.write_fails log path ≡ none

-- The history of a run, over the two reads of the configuration.
abbrev pub made : Bool → List ℕ → String → String → History → History
made true fingerprint cert_path key_path log = log
made false fingerprint cert_path key_path log =
    wrote key_path
    ∷ wrote cert_path
    ∷ command ("snapctl" ∷ "set" ∷ ("config.cluster.fingerprint" <> ("=" <> hex fingerprint)) ∷ [])
    ∷ log

module _ (h : Host) where
  exists_lem :
      (path : String) (w : World) → exists h path w ≡ (ok (is_there (h.content w.log path)), w)
  unfolding exists
  exists_lem path w = go (h.content w.log path)
    where
      go :
          (c : Option String)
          → (elim c as (λ _. microstack.Machine.Monad.Outcome Bool × World) [
            | none ↦ (ok false, w)
            | some _ ↦ (ok true, w)
          ])
            ≡ (ok (is_there c), w)
      go none = refl
      go (some s) = refl

  both_written :
      (cert_path key_path : String) (v : World)
      → Writes h cert_path
      → Writes h key_path
      → (do write_file h cert_path; write_file h key_path) v
        ≡ (ok tt, after_event (wrote key_path) (after_event (wrote cert_path) v))
  unfolding write_file ◌>>=◌
  both_written cert_path key_path v c k =
      rw (c v.log, write_file, k (wrote cert_path ∷ v.log), write_file) refl

  finish :
      (b : Bool) (fingerprint : List ℕ) (cert_path key_path : String) (v : World)
      → Accepts h
      → Writes h cert_path
      → Writes h key_path
      → when
          (not b)
          (do
            config_set h (("config.cluster.fingerprint", hex fingerprint) ∷ [])
            write_file h cert_path
            write_file h key_path)
          v
        ≡ (ok tt, record v { log = made b fingerprint cert_path key_path v.log })
  unfolding when config_set check ◌>>=◌
  finish true fingerprint cert_path key_path v accepts c k = refl
  finish false fingerprint cert_path key_path v accepts c k =
      rw (accepts v.log _) (both_written cert_path key_path _ c k)

  -- Where the certificate and the key are both there, a run reads their paths and does no more:
  -- the fingerprint that connection strings carry stays. Where one is missing, the fingerprint of
  -- a new certificate is stored, and then both files are written, the one that was there too.
  -- `snapctl` accepts every value, the configuration names both paths, and both files can be
  -- written.
  pub generate_selfsigned-made :
      (fingerprint : List ℕ) (cert_path key_path : String) (w : World)
      → Accepts h
      → Writes h cert_path
      → Writes h key_path
      → Names h cert_command w.log cert_path
      → Names h key_command (command cert_command ∷ w.log) key_path
      → generate_selfsigned h fingerprint w ≡ (
          let log = command key_command ∷ command cert_command ∷ w.log in
          (
            ok tt,
            record w {
              log =
                  made
                    (is_there (h.content log cert_path) && is_there (h.content log key_path))
                    fingerprint
                    cert_path
                    key_path
                    log;
            },
          ))
  unfolding generate_selfsigned path_from path_of config_get check_output ◌>>=◌
  generate_selfsigned-made fingerprint cert_path key_path w accepts c k n m =
      rw (n.prints, n.loads, m.prints, m.loads, exists_lem cert_path _, exists_lem key_path _)
        (finish _ fingerprint cert_path key_path _ accepts c k)
