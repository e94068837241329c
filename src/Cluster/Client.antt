-- ===== src/Cluster/Client.antt =====
-- tools/cluster/cluster/client.py: a compute node joins a cluster and stores what it is given.
pub mod Stores
use microstack.Base.{
  ℕ, String, ◌<>◌, ◌==◌, ◌==ℕ◌, Bool, true, false, not, Option, none, some, List, [], ◌∷◌, map,
  if◌then◌else◌,
}
use microstack.Json.{Json, obj, str, Fields, end, field, get}
use microstack.Machine.{
  Error, Host, World, posted, after_event, json_decode_error, key_error, type_error, value_error,
  exception, unauthorized_request_error,
}
use microstack.Machine.Monad.{
  Outcome, ok, raised, Action, pure, raise, lift, or_raise, raise_if, branch, and_then, ◌>>=◌, ◌>>◌,
}
use microstack.Shell.{to_str}
use microstack.Cluster.Shell.{config_get, config_set}

-- How `urlopen` ends: the fingerprint differs, there is no response, it raises another exception,
-- or the status and the data, `none` where these are no UTF-8.
pub data Posted : Type 0 where
  ssl_error max_retry_error : Posted
  fails : Error → Posted
  answered : ℕ → Option String → Posted

-- `urllib3` on a host, a fingerprint and a body, and `json.dumps`.
pub record Network : Type 0 where
  pub post : World → Json → Json → String → Posted
  pub dumps : Json → String

-- `value[key]`
unfoldable pub item : String → Json → Outcome Json
item key (obj fields) = elim (get key fields) [ none ↦ raised (key_error key) | some v ↦ ok v ]
item key _ = raised (type_error key)

-- `{f'config.credentials.{k}': v for k, v in credentials.items()}`, as `config_set` writes it.
unfoldable pub credential_values : Host → Fields → List (String × String)
credential_values h end = []
credential_values h (field k v rest) =
    ("config.credentials." <> k, to_str h v) ∷ credential_values h rest

-- `credentials.items()`, of a dict alone.
unfoldable pub items : Json → Outcome Fields
items (obj fields) = ok fields
items _ = raised (type_error "items")

-- What the response holds: the credentials and the address of the control node.
unfoldable pub credentials_in : Json → Outcome Fields
unfolding item items
credentials_in response =
    and_then (item "config" response)
      (λ config. and_then (item "credentials" config) (λ credentials. items credentials))

unfoldable pub control_ip_in : Json → Outcome Json
unfolding item
control_ip_in response =
    and_then (item "config" response)
      (λ config. and_then (item "network" config) (λ network. item "control-ip" network))

abbrev pub port_text : String
port_text = "/join"

-- `conn_pool.urlopen`, of a pool for a host and for certificates with a fingerprint.
unfoldable pub urlopen : Network → Json → Json → String → Action Posted
urlopen n host fingerprint body w =
    (ok (n.post w host fingerprint body), after_event (posted host fingerprint port_text body) w)

-- The message of a response with status 401.
unfoldable pub unauthorized_message : Host → String → Outcome String
unfolding item
unauthorized_message h data_text = if data_text == "" then ok "" else elim (h.loads data_text) [
  | none ↦ raised (json_decode_error data_text)
  | some doc ↦ and_then (item "message" doc) (λ message. ok (to_str h message))
]

abbrev pub unauthorized : Host → Option String → Action String
unauthorized h none = raise (value_error "utf-8")
unauthorized h (some text) = do
  message ← lift (unauthorized_message h text)
  raise (unauthorized_request_error message)

-- The text of a response, or the exception for it.
unfoldable pub response_text : Host → Posted → Action String
unfolding unauthorized_message
response_text h ssl_error = raise (exception "fingerprint")
response_text h max_retry_error = raise (exception "no response")
response_text h (fails e) = raise e
response_text h (answered status bytes) = branch (status ==ℕ 401) (unauthorized h bytes) (do
  raise_if (not (status ==ℕ 200)) (exception "unexpected status")
  text ← or_raise bytes (exception "utf-8")
  raise_if (text == "") (exception "empty response")
  pure text)

-- What is stored of a response.
unfoldable pub store_response : Host → Json → Action (Unit {0})
store_response h response = do
  credentials ← lift (credentials_in response)
  config_set h (credential_values h credentials)
  control_ip ← lift (control_ip_in response)
  config_set h (("config.network.control-ip", to_str h control_ip) ∷ [])

-- The body of the request.
unfoldable pub request_body : Network → Json → Json → String
request_body n id secret =
    n.dumps (obj (field "credential-id" id (field "credential-secret" secret end)))

-- From the configuration of the cluster to the text of the response.
unfoldable pub request_join : Network → Host → Action String
unfolding item urlopen response_text request_body
request_join n h = do
  cluster ← config_get h ("config.cluster" ∷ [])
  hostname ← lift (item "hostname" cluster)
  fingerprint ← lift (item "fingerprint" cluster)
  id ← lift (item "credential-id" cluster)
  secret ← lift (item "credential-secret" cluster)
  answer ← urlopen n hostname fingerprint (request_body n id secret)
  response_text h answer

-- `join`
unfoldable pub join : Network → Host → Action (Unit {0})
unfolding request_join store_response
join n h = do
  text ← request_join n h
  response ← or_raise (h.loads text) (json_decode_error text)
  store_response h response
