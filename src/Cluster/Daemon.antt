-- ===== src/Cluster/Daemon.antt =====
-- tools/cluster/cluster/daemon.py: the clustering service. It gives the snap configuration to a
-- node that shows an application credential which Keystone accepts.
pub mod Grants
use microstack.Base.{
  ℕ, String, ◌==◌, Bool, true, false, not, ◌&&◌, ◌||◌, Option, none, some, List, [], ◌∷◌, ltb,
  if◌then◌else◌,
}
use microstack.Json.{Json, null, str, obj, Fields, end, field, get, truthy}
use microstack.Machine.{Host, json_decode_error}
use microstack.Machine.Monad.{Outcome, ok, raised, Action, pure, or_raise, ◌>>=◌, ◌>>◌}
use microstack.Cluster.Shell.{check_output}

-- The subclasses of `APIException`.
pub data ApiError : Type 0 where
  api_version_missing api_version_invalid api_version_dropped : ApiError
  api_version_not_implemented invalid_json_in_request incorrect_content_type : ApiError
  missing_auth_data_in_request invalid_auth_data_format_in_request : ApiError
  invalid_auth_data_in_request authorization_failed unexpected_error : ApiError

-- `status_code`
unfoldable pub status_code : ApiError → ℕ
status_code api_version_missing = 400
status_code api_version_invalid = 400
status_code api_version_dropped = 410
status_code api_version_not_implemented = 501
status_code invalid_json_in_request = 400
status_code incorrect_content_type = 400
status_code missing_auth_data_in_request = 400
status_code invalid_auth_data_format_in_request = 400
status_code invalid_auth_data_in_request = 400
status_code authorization_failed = 401
status_code unexpected_error = 500

-- Whether an `errorhandler` is registered for the class.
unfoldable pub has_handler : ApiError → Bool
has_handler missing_auth_data_in_request = false
has_handler _ = true

-- `request.json`: Flask raises BadRequest, finds another content type, or has a document.
pub data Body : Type 0 where
  bad_request no_json : Body
  json : Json → Body

pub record Request : Type 0 where
  pub api_version : Option String
  pub body : Body

-- How a call into Keystone ends: the exceptions that `join` names, and all others.
pub data Reached : Type 0 where
  success authorization_failure unauthorized bad_value : Reached
  connection_error ssl_error other_exception : Reached

-- The libraries that `join` calls: `semantic_version.Version`, by the major version that it reads,
-- the three objects that may fail to be built, and the request for the catalog.
pub record Libraries : Type 0 where
  pub major : String → Option ℕ
  pub builds_auth : Json → Json → Bool
  pub builds_session : Json → Json → Bool
  pub builds_client : Json → Json → Bool
  pub get_catalog : Json → Json → Reached

-- What the view function does: it goes on, raises, returns an exception object as if it were a
-- response, or lets another exception through.
pub data Verdict : Type 0 where
  granted : Verdict
  refused returned : ApiError → Verdict
  crashed : Verdict

abbrev pub api_major : ℕ
api_major = 1

-- `keystone_client.get(…)` and its `except` clauses
unfoldable pub judge_catalog : Reached → Verdict
judge_catalog success = granted
judge_catalog authorization_failure = refused authorization_failed
judge_catalog unauthorized = refused authorization_failed
judge_catalog bad_value = refused unexpected_error
judge_catalog connection_error = refused unexpected_error
judge_catalog ssl_error = refused unexpected_error
judge_catalog other_exception = crashed

module _ (l : Libraries) where
  -- From the auth object on.
  unfoldable pub authenticate : Json → Json → Verdict
  unfolding judge_catalog
  authenticate id secret =
      if not (l.builds_auth id secret)
      then refused invalid_auth_data_in_request
      else if not (l.builds_session id secret)
      then refused unexpected_error
      else if not (l.builds_client id secret)
      then refused unexpected_error
      else judge_catalog (l.get_catalog id secret)

  -- `not credential_id or not credential_secret`
  unfoldable pub check_credentials : Option Json → Option Json → Verdict
  unfolding authenticate
  check_credentials (some id) (some secret) =
      if truthy id && truthy secret
      then authenticate id secret
      else returned missing_auth_data_in_request
  check_credentials _ _ = returned missing_auth_data_in_request

  -- `null` is read as None; a document that is no dict has no `get`.
  unfoldable pub check_body : Body → Verdict
  unfolding check_credentials
  check_body bad_request = refused invalid_json_in_request
  check_body no_json = refused incorrect_content_type
  check_body (json null) = refused incorrect_content_type
  check_body (json (obj fields)) =
      check_credentials (get "credential-id" fields) (get "credential-secret" fields)
  check_body (json _) = crashed

  -- The comparison of the major versions, and what follows it.
  unfoldable pub check_version : Option ℕ → Body → Verdict
  unfolding check_body
  check_version none body = refused api_version_invalid
  check_version (some major) body =
      if ltb api_major major
      then refused api_version_not_implemented
      else if ltb major api_major
      then refused api_version_dropped
      else check_body body

  unfoldable pub check_header : Option String → Body → Verdict
  unfolding check_version
  check_header none body = refused api_version_missing
  check_header (some version) body = check_version (l.major version) body

  unfoldable pub authorize : Request → Verdict
  unfolding check_header
  authorize r = check_header r.api_version r.body

-- `join_info`
unfoldable pub join_info : Host → Action Json
join_info h = do
  text ← check_output h ("snapctl" ∷ "get" ∷ "config" ∷ [])
  config ← or_raise (h.loads text) (json_decode_error text)
  pure (obj (field "config" config end))

-- What Flask answers: the status, and the document of a join that was granted.
pub record Response : Type 0 where
  pub status : ℕ
  pub info : Option Json

-- An exception with no handler, and a return value that is no response, end in status 500.
unfoldable pub respond_error : Verdict → Response
unfolding status_code has_handler
respond_error (refused e) =
    if has_handler e
    then record { status = status_code e; info = none }
    else record { status = 500; info = none }
respond_error _ = record { status = 500; info = none }

-- What comes back of `join_info`.
unfoldable pub respond_info : Outcome Json → Response
respond_info (ok info) = record { status = 200; info = some info }
respond_info (raised e) = record { status = 500; info = none }

-- What is done on a verdict.
unfoldable pub answer_verdict : Host → Verdict → Action Response
unfolding respond_error respond_info
answer_verdict h granted w = let (info, w') = join_info h w in (ok (respond_info info), w')
answer_verdict h verdict w = (ok (respond_error verdict), w)

-- `join`, with Flask around it.
unfoldable pub join : Libraries → Host → Request → Action Response
unfolding answer_verdict
join l h r = answer_verdict h (authorize l r)

-- `home`
abbrev pub home : Response
home = record {
  status = 200;
  info = some (
      obj
        (field "status" (str "running") (field "info" (str "MicroStack clustering daemon.") end)));
}
