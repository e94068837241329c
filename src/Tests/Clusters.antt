-- ===== src/Tests/Clusters.antt =====
-- A cluster's service, its clients and connection strings on concrete hosts.
use microstack.Base.{
  ℕ, zero, suc, ◌<◌, String, ◌==◌, ◌≡◌, refl, true, some, none, List, [], ◌∷◌, All, arith,
  if◌then◌else◌, strip,
}
use microstack.Base.Dict.{Dict, lookup}
use microstack.Json.{Json, str, obj, Fields, field, end, get, truthy}
use microstack.Machine.{Host, World, Error}
use microstack.Machine.Adds.{Between}
use microstack.Machine.Monad.{ok, raised, ◌>>=◌}
use microstack.Cluster.Shell.{config_get, check_output}
use microstack.Clustering.ConnectionString.{Packed, Codec, unpacked, accepted, validate, is_ascii}
use microstack.Clustering.ConnectionString.Checks.{IsUsable, validate-IsUsable}
use microstack.Cluster.Daemon.{Request, json, Libraries, success, unauthorized, join, Response}
use microstack.Cluster.Daemon.Grants.{IsAuthorized, join_unauthorized}
use microstack.Cluster.Client.{
  Network, max_retry_error, answered, credentials_in, control_ip_in, items, request_join, urlopen,
  request_body, response_text, item,
}
use microstack.Cluster.Client.Stores.{join_refused}
use microstack.Cluster.AddCompute.{Issuer}
use microstack.Cluster.AddCompute.Issued.{Agrees, issued}
use microstack.Shell.Snap.{Keeps}
use microstack.Tests.{new_world, calm}

abbrev config : Json
config = obj (field "network" (str "10.20.20.1") end)

abbrev service_host : Host
service_host = record (calm "{}" "") { loads = λ _. some config }

abbrev pub accepting : Libraries
accepting = record {
  major = λ _. some 1;
  builds_auth = λ _ _. true;
  builds_session = λ _ _. true;
  builds_client = λ _ _. true;
  get_catalog = λ _ _. success;
}

abbrev denying : Libraries
denying = record accepting { get_catalog = λ _ _. unauthorized }

abbrev credential : Fields
credential = field "credential-id" (str "id") (field "credential-secret" (str "secret") end)

abbrev request : Request
request = record { api_version = some "1.0.0"; body = json (obj credential) }

request-IsAuthorized : IsAuthorized accepting request
unfolding get truthy
request-IsAuthorized = record {
  version = "1.0.0";
  fields = credential;
  id = str "id";
  secret = str "secret";
  has_version = refl;
  is_supported = refl;
  has_object = refl;
  has_id = refl;
  has_secret = refl;
  id_truthy = refl;
  secret_truthy = refl;
  auth_built = refl;
  session_built = refl;
  client_built = refl;
  accepted = refl;
}

join_unauthorized_example :
    (answer : Response) × (join denying service_host request new_world ≡ (ok answer, new_world))
    × (answer.info ≡ none)
join_unauthorized_example =
    join_unauthorized denying service_host request new_world λ a. let e = a.accepted in cc

abbrev pub zeros : ℕ → List ℕ
zeros zero = []
zeros (suc n) = 0 ∷ zeros n

pub zeros_bytes : (n : ℕ) → All (λ b. b < 256) (zeros n)
zeros_bytes zero = tt
zeros_bytes (suc n) = (omega arith, zeros_bytes n)

abbrev pub an_id : String
an_id = "0123456789abcdef0123456789abcdef"

abbrev pub a_secret : String
a_secret = "abcdefghijklmnopqrstuvwxyz-_0123"

abbrev parts : Dict Packed
parts = issued "10.20.20.1" (zeros 32) an_id a_secret

abbrev pub issuer : Issuer
issuer = record {
  token = λ _. "token";
  create = λ w _ _. ok (an_id, a_secret);
  dumps = λ _. 1 ∷ 2 ∷ [];
  encode = λ _. "AQI=";
}

abbrev pub codec : Codec
codec = record {
  decode = λ _. some (1 ∷ 2 ∷ []);
  loads = λ _. unpacked parts;
  is_address = λ _. true;
  repr = λ _. "";
}

pub parts_agree : Agrees issuer codec parts
parts_agree = record { is_ascii_encode = refl; decode-encode = refl; loads-dumps = refl }

accepted_run : validate codec "AQI=" ≡ ok (accepted parts)
unfolding validate lookup
accepted_run = refl

validate-IsUsable_example :
    (is_ascii "AQI=" ≡ true)
    × (data_bytes : List ℕ) × (codec.decode "AQI=" ≡ some data_bytes)
    × (codec.loads data_bytes ≡ unpacked parts)
    × IsUsable codec parts
validate-IsUsable_example = validate-IsUsable codec "AQI=" parts accepted_run

abbrev cluster : Json
cluster = obj (field "hostname" (str "10.20.20.1") (field "fingerprint" (str "00") credential))

abbrev passwords : Fields
passwords = field "nova-password" (str "n0va") end

abbrev answer : Json
answer = obj (
    field "config"
      (obj (
        field "credentials" (obj passwords)
          (field "network" (obj (field "control-ip" (str "10.20.20.1") end)) end)))
      end)

abbrev compute_host : Host
compute_host = record (calm "cluster" "") {
  loads = λ s. if s == "cluster" then some cluster else some answer;
}

abbrev answering : Network
answering = record { post = λ _ _ _ _. answered 200 (some "answer"); dumps = λ _. "{}" }

abbrev unreachable : Network
unreachable = record { post = λ _ _ _ _. max_retry_error; dumps = λ _. "{}" }

abbrev asked : World
asked = (request_join answering compute_host new_world).1

asked_run : request_join answering compute_host new_world ≡ (ok "answer", asked)
unfolding request_join config_get check_output item get urlopen request_body response_text strip
    ◌>>=◌
asked_run = refl

join_refused_example :
    (e : Error) × ((microstack.Cluster.Client.join unreachable compute_host new_world).0 ≡ raised e)
    × Between Keeps [] (microstack.Cluster.Client.join unreachable compute_host new_world).1.log
join_refused_example = join_refused unreachable compute_host new_world λ _ _ _ _. tt
