-- ===== src/Defaults.antt =====
-- snap-overlay/bin/set-default-config.py: `_setup_secrets` generates the passwords of the
-- services.
pub mod Kept
pub mod Table
use microstack.Base.{String, ◌<>◌, List, [], ◌∷◌, contains, if◌then◌else◌}
use microstack.Json.{Json, obj, Fields, end, field}
use microstack.Machine.{Host, World}
use microstack.Machine.Monad.{Action, ◌>>=◌, ◌>>◌}
use microstack.Shell.{config_get, config_set}

abbrev pub secret_keys : List String
secret_keys =
    "mysql-root-password" ∷ "rabbitmq-password" ∷ "keystone-password" ∷ "nova-password"
    ∷ "cinder-password" ∷ "neutron-password" ∷ "placement-password" ∷ "glance-password"
    ∷ "ovn-metadata-proxy-shared-secret" ∷ []

unfoldable pub names : Fields → List String
names end = []
names (field k v rest) = k ∷ names rest

-- `existing_cred_keys`
unfoldable pub keys_of : Json → List String
unfolding names
keys_of (obj fields) = names fields
keys_of _ = []

-- The passwords for the keys that are not there yet. `generate` is `generate_password`, whose
-- value may differ from key to key.
unfoldable pub new_secrets : (String → String) → List String → List String → List (String × String)
new_secrets generate existing [] = []
new_secrets generate existing (k ∷ ks) =
    let rest = new_secrets generate existing ks in
    if contains existing k then rest else ("config.credentials." <> k, generate k) ∷ rest

-- `_setup_secrets`
unfoldable pub setup_secrets : Host → (String → String) → Action (Unit {0})
unfolding keys_of new_secrets
setup_secrets h generate = do
  existing ← config_get h ("config.credentials" ∷ [])
  config_set h (new_secrets generate (keys_of existing) secret_keys)
