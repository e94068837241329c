-- ===== src/Defaults/Kept.antt =====
-- Secrets that exist are kept.
use microstack.Base.{
  String, ◌≡◌, refl, true, some, List, [], ◌∷◌, every, contains, strip, Bool-cases, inl, inr, arith,
}
use microstack.Json.{Json}
use microstack.Machine.{Host, World, command, after_event}
use microstack.Machine.Monad.{ok, ◌>>=◌}
use microstack.Shell.{config_get, config_set, check_output}
use microstack.Defaults.{new_secrets, keys_of, secret_keys, setup_secrets}

new_secrets-nil :
    (generate : String → String) (existing keys : List String)
    → every (contains existing) keys ≡ true
    → new_secrets generate existing keys ≡ []
unfolding new_secrets
new_secrets-nil generate existing [] e = refl
new_secrets-nil generate existing (k ∷ ks) e = elim (Bool-cases (contains existing k)) [
  | inl f ↦ rw f (new_secrets-nil generate existing ks (ground arith))
  | inr f ↦ absurd (ground arith)
]

abbrev pub secrets_command : List String
secrets_command = "snapctl" ∷ "get" ∷ "-t" ∷ "config.credentials" ∷ []

-- Where the configuration has every secret, setting the secrets up reads the configuration and
-- does no more: nothing is generated again.
pub setup_secrets-kept :
    (h : Host) (generate : String → String) (w : World) (existing : Json)
    → h.status w.log secrets_command ≡ 0
    → h.loads (strip (h.output w.log secrets_command)) ≡ some existing
    → every (contains (keys_of existing)) secret_keys ≡ true
    → setup_secrets h generate w ≡ (ok tt, after_event (command secrets_command) w)
unfolding setup_secrets config_get config_set check_output ◌>>=◌
setup_secrets-kept h generate w existing s l e =
    rw (s, l, new_secrets-nil generate (keys_of existing) secret_keys e) refl
