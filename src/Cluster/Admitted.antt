-- ===== src/Cluster/Admitted.antt =====
-- A connection string from the control node that issues it to the compute node that joins by it.
use microstack.Base.{ℕ, String, ◌==◌, ◌≡◌, refl, ap, true, false, some, List, [], ◌∷◌, strip}
use microstack.Base.Apart.{is_key}
use microstack.Base.Hex.{hex}
use microstack.Json.{Json, str, obj, Fields, get, truthy}
use microstack.Machine.{Host, World, History, command, posted, after_event}
use microstack.Machine.Monad.{ok, ◌>>◌}
use microstack.Shell.Snap.{Snap, snap, snap-set_all, put, put_each, all_keys}
use microstack.Clustering.ConnectionString.{accepted}
use microstack.Cluster.Daemon.{Libraries, success}
use microstack.Cluster.Daemon.Grants.{config_command}
use microstack.Cluster.Client.{credentials_in, control_ip_in, port_text}
use microstack.Cluster.Client.Stores.{credentials_event, address_event}
use microstack.Cluster.Joined.{asked, told, cluster_command, IsMember}
use microstack.Cluster.AddCompute.Issued.{stored_parts}

-- `snapctl` on the compute node: it accepts every value, and where the configuration has these
-- four texts, `snapctl get` prints a document with them.
pub record Serves (h : Host) (m : Snap) (host digits id secret : String) : Type 0 where
  pub accepts : (log : History) (args : List String) → h.status log ("snapctl" ∷ args) ≡ 0
  pub gives :
      (log : History)
      → snap m log "config.cluster.hostname" ≡ some host
      → snap m log "config.cluster.fingerprint" ≡ some digits
      → snap m log "config.cluster.credential-id" ≡ some id
      → snap m log "config.cluster.credential-secret" ≡ some secret
      → (cluster : Fields) × (h.loads (strip (h.output log cluster_command)) ≡ some (obj cluster))
        × (get "hostname" cluster ≡ some (str host))
        × (get "fingerprint" cluster ≡ some (str digits))
        × (get "credential-id" cluster ≡ some (str id))
        × (get "credential-secret" cluster ≡ some (str secret))

-- The service of the control node: Keystone accepts the credential, the configuration of the node
-- has credentials and an address, and both nodes read a document that the other one writes.
pub record IsServed (l : Libraries) (control : Host) (there : World) (dumps : Json → String)
    (h : Host) (id secret : String) (credentials : Fields) (ip : Json) : Type 0 where
  pub config : Json
  pub supports : l.major "1.0.0" ≡ some 1
  pub id_truthy : truthy (str id) ≡ true
  pub secret_truthy : truthy (str secret) ≡ true
  pub auth_built : l.builds_auth (str id) (str secret) ≡ true
  pub session_built : l.builds_session (str id) (str secret) ≡ true
  pub client_built : l.builds_client (str id) (str secret) ≡ true
  pub accepted : l.get_catalog (str id) (str secret) ≡ success
  pub config_reads : control.status there.log config_command ≡ 0
  pub config_loads : control.loads (strip (control.output there.log config_command)) ≡ some config
  pub has_credentials : credentials_in (told config) ≡ ok credentials
  pub has_ip : control_ip_in (told config) ≡ ok ip
  pub asks :
      control.loads (dumps (asked (str id) (str secret))) ≡ some (asked (str id) (str secret))
  pub tells : h.loads (dumps (told config)) ≡ some (told config)
  pub writes : (dumps (told config) == "") ≡ false

-- The log of a join by these parts, over one before it, newest first.
abbrev pub admitted_log :
    Host → (Json → String) → String → String → String → List ℕ → Fields → Json → History → History
admitted_log h dumps host id secret fingerprint credentials ip log =
    address_event h ip
    ∷ credentials_event h credentials
    ∷ posted (str host) (str (hex fingerprint)) port_text (dumps (asked (str id) (str secret)))
    ∷ command cluster_command
    ∷ command (stored_parts host fingerprint id secret)
    ∷ log

module _ (l : Libraries) (control : Host) (there : World) (dumps : Json → String) (h : Host)
    (m : Snap) (host id secret : String) (fingerprint : List ℕ) (credentials : Fields) (ip : Json)
    (serves : Serves h m host (hex fingerprint) id secret)
    (served : IsServed l control there dumps h id secret credentials ip) where
  abbrev after_parts : World → World
  after_parts w = after_event (command (stored_parts host fingerprint id secret)) w

  -- The configuration that a node has which stored these parts.
  stored :
      (w : World)
      → snap m (after_parts w).log
        ≡ put_each
            (("config.cluster.hostname", host)
              ∷ ("config.cluster.fingerprint", hex fingerprint)
              ∷ ("config.cluster.credential-id", id)
              ∷ ("config.cluster.credential-secret", secret)
              ∷ [])
            (snap m w.log)
  unfolding all_keys is_key
  stored w = snap-set_all m _ w.log refl

  has :
      (w : World)
      → (snap m (after_parts w).log "config.cluster.hostname" ≡ some host)
        × (snap m (after_parts w).log "config.cluster.fingerprint" ≡ some (hex fingerprint))
        × (snap m (after_parts w).log "config.cluster.credential-id" ≡ some id)
        × (snap m (after_parts w).log "config.cluster.credential-secret" ≡ some secret)
  unfolding put put_each
  has w = (
    ap (λ n. n "config.cluster.hostname") (stored w),
    ap (λ n. n "config.cluster.fingerprint") (stored w),
    ap (λ n. n "config.cluster.credential-id") (stored w),
    ap (λ n. n "config.cluster.credential-secret") (stored w),
  )

  after_parts-IsMember :
      (w : World)
      → IsMember l control there dumps host (hex fingerprint) h (after_parts w) credentials ip
  after_parts-IsMember w =
      let (a, b, c, d) = has w in
      let (cluster, loads, e₁, e₂, e₃, e₄) = serves.gives (after_parts w).log a b c d in
      record {
        cluster = cluster;
        id = str id;
        secret = str secret;
        config = served.config;
        reads = serves.accepts _ _;
        loads = loads;
        has_hostname = e₁;
        has_fingerprint = e₂;
        has_id = e₃;
        has_secret = e₄;
        supports = served.supports;
        id_truthy = served.id_truthy;
        secret_truthy = served.secret_truthy;
        auth_built = served.auth_built;
        session_built = served.session_built;
        client_built = served.client_built;
        accepted = served.accepted;
        config_reads = served.config_reads;
        config_loads = served.config_loads;
        has_credentials = served.has_credentials;
        has_ip = served.has_ip;
        asks = served.asks;
        tells = served.tells;
        writes = served.writes;
        accepts = serves.accepts;
      }
