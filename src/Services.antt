-- ===== src/Services.antt =====
-- The questions of tools/init/init/questions/__init__.py that set up a service, by their `yes` and
-- `no`, and what these share.
pub mod Start
pub mod Compute
pub mod Storage
pub mod Networks
pub mod Adds
pub mod Reruns
pub mod Returned
pub mod Prepared
pub mod Synced
pub mod Unready
pub mod Started
pub mod Settings
use microstack.Base.{String, ◌<>◌, Bool, not, List, [], ◌∷◌}
use microstack.Json.{Json, str}
use microstack.Machine.{Host, type_error}
use microstack.Machine.Monad.{Outcome, ok, raised, Action, pure, lift, when, ◌>>=◌, ◌>>◌}
use microstack.Shell.{call, check, config_get, env_get}

-- `for x in xs:`
unfoldable pub for_each : List String → (String → Action (Unit {0})) → Action (Unit {0})
for_each [] f = pure tt
for_each (x ∷ xs) f = do f x; for_each xs f

-- `if not call(*args):`
unfoldable pub unless_call : Host → List String → Action (Unit {0}) → Action (Unit {0})
unless_call h args m = do shown ← call h args; when (not shown) m

-- `if not call('openstack', noun, 'show', name):`
abbrev pub unless_shown : Host → String → String → Action (Unit {0}) → Action (Unit {0})
unless_shown h noun name = unless_call h ("openstack" ∷ noun ∷ "show" ∷ name ∷ [])

-- An argument of a command has to be a text.
unfoldable pub argument : Json → Outcome String
argument (str s) = ok s
argument _ = raised (type_error "argument")

-- The user of a service, with its password and the role of an admin.
unfoldable pub create_user : Host → String → Action (Unit {0})
unfolding argument
create_user h name = do
  password ← config_get h (("config.credentials." <> name <> "-password") ∷ [])
  text ← lift (argument password)
  check h
      ("openstack" ∷ "user" ∷ "create" ∷ "--domain" ∷ "default" ∷ "--password" ∷ text ∷ name ∷ [])
  check h ("openstack" ∷ "role" ∷ "add" ∷ "--project" ∷ "service" ∷ "--user" ∷ name ∷ "admin" ∷ [])

-- The arguments of `openstack service create`.
abbrev pub service_command : String → String → String → List String
service_command name description kind =
    "openstack" ∷ "service" ∷ "create" ∷ "--name" ∷ name ∷ "--description" ∷ description ∷ kind ∷ []

-- The arguments of `openstack endpoint create`.
abbrev pub endpoint_command : String → String → String → List String
endpoint_command service endpoint url =
    "openstack" ∷ "endpoint" ∷ "create" ∷ "--region" ∷ "microstack" ∷ service ∷ endpoint ∷ url ∷ []

-- `'http://{key}' … .format(**_env)`
unfoldable pub url_of : String → String → Action String
url_of key rest = do address ← env_get key; pure ("http://" <> address <> rest)

abbrev pub manage : Host → String → List String → Action (Unit {0})
manage h program args = check h ("snap-openstack" ∷ "launch" ∷ program ∷ args)
