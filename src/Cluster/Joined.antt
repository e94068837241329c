-- ===== src/Cluster/Joined.antt =====
-- A compute node and the service of its control node, connected: the join from end to end.
use microstack.Base.{
  String, ◌==◌, ◌≡◌, true, false, Option, none, some, List, [], ◌∷◌, strip, not, if◌then◌else◌,
}
use microstack.Json.{is_str, str, Json, obj, Fields, end, field, get, truthy}
use microstack.Machine.{command, posted, History, Host, World}
use microstack.Machine.Monad.{Outcome, ok, raised}
use microstack.Cluster.Daemon as Daemon
use microstack.Cluster.Daemon.{Body, bad_request, json, Request, Libraries, success, Response}
use microstack.Cluster.Daemon.Grants.{config_command}
use microstack.Cluster.Client.{
  Network, Posted, ssl_error, max_retry_error, answered, credentials_in, control_ip_in, join,
  port_text,
}

-- Flask's reading of a body that is sent as application/json.
abbrev pub body_of : Option Json → Body
body_of none = bad_request
body_of (some doc) = json doc

-- The request that the client sends, as the service reads it on its host.
abbrev pub request_of : Host → String → Request
request_of control body = record { api_version = some "1.0.0"; body = body_of (control.loads body) }

-- A response on the wire; a service that raises does not answer.
abbrev sent_document : (Json → String) → Option Json → String
sent_document dumps none = ""
sent_document dumps (some doc) = dumps doc

abbrev pub sent : (Json → String) → Outcome Response → Posted
sent dumps (raised e) = max_retry_error
sent dumps (ok r) = answered r.status (some (sent_document dumps r.info))

-- The network between a client and the service on a control node: the service is reached under
-- one address, and shows a certificate whose fingerprint has these digits. No other host answers,
-- and another fingerprint is refused.
abbrev pub connected_to : Libraries → Host → World → (Json → String) → String → String → Network
connected_to l control there dumps address digits = record {
  post = λ w host fingerprint body.
      if not (is_str address host)
      then max_retry_error
      else if not (is_str digits fingerprint)
      then ssl_error
      else sent dumps (Daemon.join l control (request_of control body) there).0;
  dumps = dumps;
}

-- The document that a client sends, and the one that the service answers with.
abbrev pub asked : Json → Json → Json
asked id secret = obj (field "credential-id" id (field "credential-secret" secret end))

abbrev pub told : Json → Json
told config = obj (field "config" config end)

abbrev pub cluster_command : List String
cluster_command = "snapctl" ∷ "get" ∷ "-t" ∷ "config.cluster" ∷ []

-- A compute node whose configuration names the address and the fingerprint of a service and a
-- credential that Keystone accepts there, and a service whose configuration has credentials and an address. Both read a document that the
-- other one writes as it is.
pub record IsMember (l : Libraries) (control : Host) (there : World) (dumps : Json → String)
    (address digits : String) (h : Host) (w : World) (credentials : Fields) (ip : Json)
    : Type 0 where
  pub cluster : Fields
  pub id : Json
  pub secret : Json
  pub config : Json
  pub reads : h.status w.log cluster_command ≡ 0
  pub loads : h.loads (strip (h.output w.log cluster_command)) ≡ some (obj cluster)
  pub has_hostname : get "hostname" cluster ≡ some (str address)
  pub has_fingerprint : get "fingerprint" cluster ≡ some (str digits)
  pub has_id : get "credential-id" cluster ≡ some id
  pub has_secret : get "credential-secret" cluster ≡ some secret
  pub supports : l.major "1.0.0" ≡ some 1
  pub id_truthy : truthy id ≡ true
  pub secret_truthy : truthy secret ≡ true
  pub auth_built : l.builds_auth id secret ≡ true
  pub session_built : l.builds_session id secret ≡ true
  pub client_built : l.builds_client id secret ≡ true
  pub accepted : l.get_catalog id secret ≡ success
  pub config_reads : control.status there.log config_command ≡ 0
  pub config_loads : control.loads (strip (control.output there.log config_command)) ≡ some config
  pub has_credentials : credentials_in (told config) ≡ ok credentials
  pub has_ip : control_ip_in (told config) ≡ ok ip
  pub asks : control.loads (dumps (asked id secret)) ≡ some (asked id secret)
  pub tells : h.loads (dumps (told config)) ≡ some (told config)
  pub writes : (dumps (told config) == "") ≡ false
  pub accepts : (log : History) (args : List String) → h.status log ("snapctl" ∷ args) ≡ 0

module _ (l : Libraries) (control : Host) (there : World) (dumps : Json → String)
    (address digits : String) (h : Host) (w : World) (credentials : Fields) (ip : Json)
    (m : IsMember l control there dumps address digits h w credentials ip) where
  -- What the client sends before it stores anything, newest first.
  abbrev pub sent_log : History
  sent_log =
      posted (str address) (str digits) port_text (dumps (asked m.id m.secret))
      ∷ command cluster_command
      ∷ w.log
