-- ===== src/Cluster/AddCompute/Printed.antt =====
-- The connection string that a control node prints.
use microstack.Base.{ℕ, ◌<◌, All, String, ◌≡◌, refl, List, [], ◌∷◌}
use microstack.Base.Hex.{hex}
use microstack.Json.{Json, str}
use microstack.Machine.{Host, World, after_event, command}
use microstack.Machine.Monad.{ok, ◌>>=◌}
use microstack.Shell.Returned.{get_command, Gives}
use microstack.Cluster.Shell.{check_output, config_get}
use microstack.Cluster.AddCompute.{Issuer, create_credential, is_control, add_compute}
use microstack.Cluster.AddCompute.Issued.{issued, connection_data-hex}

module _ (h : Host) (key : String) (value : Json) (gives : Gives h key value) where
  config_get-Gives :
      (w : World)
      → config_get h (key ∷ []) w ≡ (ok value, after_event (command (get_command key)) w)
  unfolding config_get check_output ◌>>=◌
  config_get-Gives w = rw (gives.reads w.log, gives.loads w.log)

-- A control node: its configuration has a password for Nova, an address and a fingerprint, and
-- Keystone makes an application credential for the password.
pub record IsController (i : Issuer) (h : Host) (host id secret : String) (fingerprint : List ℕ)
    : Type 0 where
  pub password : Json
  pub role : Gives h "config.cluster.role" (str "control")
  pub has_password : Gives h "config.credentials.nova-password" password
  pub address : Gives h "config.network.control-ip" (str host)
  pub digest : Gives h "config.cluster.fingerprint" (str (hex fingerprint))
  pub creates : (w : World) (token : String) → i.create w password token ≡ ok (id, secret)

pub add_compute-IsController :
    (i : Issuer) (h : Host) (host id secret : String) (fingerprint : List ℕ) (w : World)
    → IsController i h host id secret fingerprint
    → All (λ b. b < 256) fingerprint
    → (add_compute i h w).0 ≡ ok (i.encode (i.dumps (issued host fingerprint id secret)))
unfolding add_compute create_credential is_control ◌>>=◌
add_compute-IsController i h host id secret fingerprint w c b =
    rw
      (
        config_get-Gives h "config.cluster.role" _ c.role,
        config_get-Gives h "config.credentials.nova-password" _ c.has_password,
        c.creates,
        config_get-Gives h "config.network.control-ip" _ c.address,
        config_get-Gives h "config.cluster.fingerprint" _ c.digest,
        connection_data-hex host id secret fingerprint b,
      )
      refl
