-- ===== src/Cluster/Daemon/Grants.antt =====
-- To whom the clustering service gives the configuration.
use microstack.Base.{ℕ, String, ◌≡◌, refl, true, Option, none, some, List, [], ◌∷◌, arith, strip}
use microstack.Json.{Json, null, obj, Fields, get, truthy, end, field}
use microstack.Machine.{Host, World}
use microstack.Machine.Monad.{ok, ◌>>=◌}
use microstack.Cluster.Shell.{check_output}
use microstack.Cluster.Daemon.{
  Request, Body, json, Libraries, Verdict, granted, Reached, success, judge_catalog, authenticate,
  check_credentials, check_body, check_version, check_header, authorize, join_info, join,
  answer_verdict, Response, respond_error,
}

-- The request that is let in: it names API version 1, and its JSON object has a credential that
-- Keystone accepts for reading its catalog.
pub record IsAuthorized (l : Libraries) (r : Request) : Type 0 where
  pub version : String
  pub fields : Fields
  pub id : Json
  pub secret : Json
  pub has_version : r.api_version ≡ some version
  pub is_supported : l.major version ≡ some 1
  pub has_object : r.body ≡ json (obj fields)
  pub has_id : get "credential-id" fields ≡ some id
  pub has_secret : get "credential-secret" fields ≡ some secret
  pub id_truthy : truthy id ≡ true
  pub secret_truthy : truthy secret ≡ true
  pub auth_built : l.builds_auth id secret ≡ true
  pub session_built : l.builds_session id secret ≡ true
  pub client_built : l.builds_client id secret ≡ true
  pub accepted : l.get_catalog id secret ≡ success

module _ (l : Libraries) where
  authorize-granted : (r : Request) → IsAuthorized l r → authorize l r ≡ granted
  unfolding authorize judge_catalog
  authorize-granted r a = ground arith

  catalog_of : (c : Reached) → judge_catalog c ≡ granted → c ≡ success
  unfolding judge_catalog
  catalog_of c e = ground arith

  -- Keystone's part of the conditions.
  accepted_of :
      (id secret : Json)
      → authenticate l id secret ≡ granted
      → (l.builds_auth id secret ≡ true)
        × (l.builds_session id secret ≡ true)
        × (l.builds_client id secret ≡ true)
        × (l.get_catalog id secret ≡ success)
  unfolding authenticate
  accepted_of id secret e = ground arith

  credentials_of :
      (fields : Fields)
      → check_credentials l (get "credential-id" fields) (get "credential-secret" fields) ≡ granted
      → (id secret : Json) × (get "credential-id" fields ≡ some id)
        × (get "credential-secret" fields ≡ some secret)
        × (truthy id ≡ true)
        × (truthy secret ≡ true)
        × (authenticate l id secret ≡ granted)
  unfolding check_credentials
  credentials_of fields e =
      go (get "credential-id" fields) (get "credential-secret" fields) refl refl e
    where
      go :
          (a b : Option Json)
          → get "credential-id" fields ≡ a
          → get "credential-secret" fields ≡ b
          → check_credentials l a b ≡ granted
          → (id secret : Json) × (get "credential-id" fields ≡ some id)
            × (get "credential-secret" fields ≡ some secret)
            × (truthy id ≡ true)
            × (truthy secret ≡ true)
            × (authenticate l id secret ≡ granted)
      go (some id) (some secret) p q g =
          (id, secret, p, q, ground arith, ground arith, ground arith)
      go (some id) none p q g = absurd (cc)
      go none b p q g = absurd (cc)

  body_of :
      (body : Body)
      → check_body l body ≡ granted
      → (fields : Fields) × (body ≡ json (obj fields))
        × (check_credentials l (get "credential-id" fields) (get "credential-secret" fields)
            ≡ granted)
  unfolding check_body
  body_of (json (obj fields)) e = (fields, refl, e)
  body_of (json null) e = absurd (cc)
  body_of (json _) e = absurd (cc)
  body_of _ e = absurd (cc)

  version_of :
      (major : Option ℕ) (body : Body)
      → check_version l major body ≡ granted
      → (major ≡ some 1) × (check_body l body ≡ granted)
  unfolding check_version
  version_of none body e = absurd (cc)
  version_of (some m) body e = ground arith

  header_of :
      (v : Option String) (body : Body)
      → check_header l v body ≡ granted
      → (version : String) × (v ≡ some version) × (check_version l (l.major version) body ≡ granted)
  unfolding check_header
  header_of none body e = absurd (cc)
  header_of (some version) body e = (version, refl, e)

  -- Every request that is let in is authorized.
  authorize-IsAuthorized : (r : Request) → authorize l r ≡ granted → IsAuthorized l r
  unfolding authorize
  authorize-IsAuthorized r e =
      let (version, p, v) = header_of r.api_version r.body e in
      let (m, b) = version_of (l.major version) r.body v in
      let (fields, q, c) = body_of r.body b in
      let (id, secret, i, s, ti, ts, a) = credentials_of fields c in
      let (a₁, a₂, a₃, a₄) = accepted_of id secret a in
      record {
        version = version;
        fields = fields;
        id = id;
        secret = secret;
        has_version = p;
        is_supported = m;
        has_object = q;
        has_id = i;
        has_secret = s;
        id_truthy = ti;
        secret_truthy = ts;
        auth_built = a₁;
        session_built = a₂;
        client_built = a₃;
        accepted = a₄;
      }

-- The configuration as `snapctl` prints it.
abbrev pub config_command : List String
config_command = "snapctl" ∷ "get" ∷ "config" ∷ []

module _ (l : Libraries) (h : Host) (r : Request) (w : World) where
  -- An authorized request is answered with the configuration as `snapctl` gives it.
  pub join_authorized :
      (config : Json)
      → IsAuthorized l r
      → h.status w.log config_command ≡ 0
      → h.loads (strip (h.output w.log config_command)) ≡ some config
      → (join l h r w).0
        ≡ ok (record { status = 200; info = some (obj (field "config" config end)) })
  unfolding join join_info check_output ◌>>=◌
  join_authorized config a s d = rw (authorize-granted l r a) (rw (s, d))

  refusal : (v : Verdict) → (v ≡ granted → ⊥) → answer_verdict h v w ≡ (ok (respond_error v), w)
  unfolding answer_verdict
  refusal granted n = absurd (n refl)
  refusal _ n = refl

  no_info : (v : Verdict) → (respond_error v).info ≡ none
  unfolding respond_error
  no_info v = ground arith

  -- A request that is not authorized gets no configuration, and none is read for it: the service
  -- runs no command.
  pub join_unauthorized :
      ¬ IsAuthorized l r
      → (answer : Response) × (join l h r w ≡ (ok answer, w)) × (answer.info ≡ none)
  unfolding join
  join_unauthorized n = (
    respond_error (authorize l r),
    refusal (authorize l r) (λ e. n (authorize-IsAuthorized l r e)),
    no_info (authorize l r),
  )
