-- ===== src/Clustering/Tls.antt =====
-- tools/init/init/cluster_tls.py: the certificate of the clustering service.
pub mod Kept
use microstack.Base.{ℕ, String, Bool, not, ◌&&◌, List, [], ◌∷◌}
use microstack.Base.Hex.{hex}
use microstack.Json.{Json, str}
use microstack.Machine.{Host, World, type_error}
use microstack.Machine.Monad.{Outcome, ok, raised, Action, pure, lift, when, ◌>>=◌, ◌>>◌}
use microstack.Shell.{config_get, config_set}
use microstack.Launch.{exists, write_file}

-- `Path(value)`
unfoldable pub path_of : Json → Outcome String
path_of (str s) = ok s
path_of _ = raised (type_error "Path")

unfoldable pub path_from : Host → String → Action String
unfolding path_of
path_from h key = do path ← config_get h (key ∷ []); lift (path_of path)

-- `generate_selfsigned`, for the SHA256 fingerprint of the certificate that is built.
unfoldable pub generate_selfsigned : Host → List ℕ → Action (Unit {0})
unfolding path_from
generate_selfsigned h fingerprint = do
  cert_path ← path_from h "config.cluster.tls-cert-path"
  key_path ← path_from h "config.cluster.tls-key-path"
  has_cert ← exists h cert_path
  has_key ← exists h key_path
  when (not (has_cert && has_key)) (do
    config_set h (("config.cluster.fingerprint", hex fingerprint) ∷ [])
    write_file h cert_path
    write_file h key_path)
