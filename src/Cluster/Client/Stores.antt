-- ===== src/Cluster/Client/Stores.antt =====
-- What a join stores, and when it stores nothing.
use microstack.Base.{
  String, ◌==ℕ◌, ◌≡◌, refl, Bool, true, false, Option, none, some, List, [], ◌∷◌, map, ap, not,
}
use microstack.Json.{Json, Fields}
use microstack.Machine.{Error, Event, History, Host, World, command, posted}
use microstack.Machine.Monad.{
  Outcome, ok, raised, Action, raise, raise_if, branch, lift, continue, ◌>>=◌,
}
use microstack.Machine.Adds.{Adds, Between, adds_rules, Adds-bind}
use microstack.Shell.{assign, to_str}
use microstack.Cluster.Shell.{check_output, config_get, config_set}
use microstack.Cluster.Shell.Adds.{Adds-config_get}
use microstack.Shell.Snap.{Keeps}
use microstack.Cluster.Client.{
  Network, item, credentials_in, control_ip_in, credential_values, store_response, config_set,
  request_join, join, Posted, ssl_error, max_retry_error, fails, answered, urlopen, response_text,
  unauthorized, unauthorized_message, request_body,
}

abbrev pub credentials_event : Host → Fields → Event
credentials_event h fields = command ("snapctl" ∷ "set" ∷ map assign (credential_values h fields))

abbrev pub address_event : Host → Json → Event
address_event h ip =
    command ("snapctl" ∷ "set" ∷ assign ("config.network.control-ip", to_str h ip) ∷ [])

module _ (n : Network) (h : Host) where
  -- A response with credentials and an address is stored by two commands that `snapctl` accepts,
  -- the credentials first and then the address of the control node.
  pub join_stores :
      (w v : World) (text : String) (response ip : Json) (credentials : Fields)
      → request_join n h w ≡ (ok text, v)
      → h.loads text ≡ some response
      → credentials_in response ≡ ok credentials
      → control_ip_in response ≡ ok ip
      → ((log : History) (args : List String) → h.status log ("snapctl" ∷ args) ≡ 0)
      → join n h w
        ≡ (ok tt, record v { log = address_event h ip ∷ credentials_event h credentials ∷ v.log })
  unfolding join store_response config_set check_output ◌>>=◌
  join_stores w v text response ip credentials r d c a s = rw (r, d, c, a, s, s)

  Keeps-urlopen :
      (host fingerprint : Json) (body : String) → Adds Keeps (urlopen n host fingerprint body)
  unfolding urlopen
  Keeps-urlopen host fingerprint body = record {
    from = λ w. record { new = posted _ _ _ body ∷ []; eq = refl; each = (refl, tt) };
  }

  Keeps-response_text : (p : Posted) → Adds Keeps (response_text h p)
  unfolding response_text
  Keeps-response_text ssl_error = search adds_rules
  Keeps-response_text max_retry_error = search adds_rules
  Keeps-response_text (fails e) = search adds_rules
  Keeps-response_text (answered status none) = search adds_rules
  Keeps-response_text (answered status (some text)) = search adds_rules

  -- Asking for the configuration of the cluster stores nothing.
  Keeps-request_join : Adds Keeps (request_join n h)
  unfolding request_join
  Keeps-request_join =
      Adds-bind _ _ (Adds-config_get h _ refl)
        λ cluster. search (adds_rules, Keeps-urlopen, Keeps-response_text) depth 12

-- An exchange that is no success.
abbrev pub IsFailure : Posted → Type 0
IsFailure ssl_error = Unit
IsFailure max_retry_error = Unit
IsFailure (fails e) = Unit
IsFailure (answered status bytes) = (status ==ℕ 200) ≡ false

-- An action that raises, from any world.
abbrev Raises : {A : Type 0} → Action A → Type 0
Raises m = (w : World) → (e : Error) × ((m w).0 ≡ raised e)

Raises-bind :
    {A B : Type 0} (m : Action A) (f : A → Action B) → ((a : A) → Raises (f a)) → Raises (m >>= f)
unfolding ◌>>=◌
Raises-bind {A} {B} m f q w = go (m w)
  where
    go : (r : Outcome A × World) → (e : Error) × ((continue r.0 f r.1).0 ≡ raised e)
    go (ok a, v) = q a v
    go (raised x, v) = (x, refl)

Raises-first : {A B : Type 0} (m : Action A) (f : A → Action B) → Raises m → Raises (m >>= f)
unfolding ◌>>=◌
Raises-first {A} {B} m f p w = go (m w) (p w)
  where
    go :
        (r : Outcome A × World)
        → (e : Error) × (r.0 ≡ raised e)
        → (e : Error) × ((continue r.0 f r.1).0 ≡ raised e)
    go (ok a, v) (e, q) = absurd (cc)
    go (raised x, v) q = (x, refl)

Raises-branch :
    {A : Type 0} (b : Bool) (m n : Action A) → Raises m → Raises n → Raises (branch b m n)
unfolding branch
Raises-branch true m n p q w = p w
Raises-branch false m n p q w = q w

Raises-raise : {A : Type 0} (e : Error) → Raises (raise {A = A} e)
unfolding raise
Raises-raise e w = (e, refl)

Raises-raise_if : (b : Bool) (e : Error) → b ≡ false → Raises (raise_if (not b) e)
unfolding raise_if
Raises-raise_if true e f w = absurd (cc)
Raises-raise_if false e f w = (e, refl)

unauthorized-Raises : (h : Host) (bytes : Option String) → Raises (unauthorized h bytes)
unauthorized-Raises h none = Raises-raise _
unauthorized-Raises h (some text) =
    Raises-bind (lift (unauthorized_message h text)) _ (λ m. Raises-raise _)

response_text-Raises : (h : Host) (p : Posted) → IsFailure p → Raises (response_text h p)
unfolding response_text
response_text-Raises h ssl_error f = Raises-raise _
response_text-Raises h max_retry_error f = Raises-raise _
response_text-Raises h (fails e) f = Raises-raise e
response_text-Raises h (answered status bytes) f =
    Raises-branch (status ==ℕ 401) _ _ (unauthorized-Raises h bytes)
      (Raises-first _ _ (Raises-raise_if (status ==ℕ 200) _ f))

bind_raised :
    {A B : Type 0} (m : Action A) (f : A → Action B) (w : World) (e : Error)
    → (m w).0 ≡ raised e
    → (m >>= f) w ≡ (raised e, (m w).1)
unfolding ◌>>=◌
bind_raised m f w e p = rw p

module _ (n : Network) (h : Host) where
  urlopen-Raises :
      (host fingerprint : Json) (body : String)
      → ((w : World) → IsFailure (n.post w host fingerprint body))
      → Raises (urlopen n host fingerprint body >>= response_text h)
  unfolding urlopen ◌>>=◌
  urlopen-Raises host fingerprint body f w =
      response_text-Raises h (n.post w host fingerprint body) (f w) _

  request_join-Raises :
      ((w : World) (host fingerprint : Json) (body : String)
        → IsFailure (n.post w host fingerprint body))
      → Raises (request_join n h)
  unfolding request_join
  request_join-Raises f = Raises-bind (config_get h ("config.cluster" ∷ [])) _ λ cluster.
      Raises-bind (lift (item "hostname" cluster)) _ λ host.
        Raises-bind (lift (item "fingerprint" cluster)) _ λ fingerprint.
          Raises-bind (lift (item "credential-id" cluster)) _ λ id.
            Raises-bind (lift (item "credential-secret" cluster)) _ λ secret.
              urlopen-Raises host fingerprint (request_body n id secret)
                (λ w. f w host fingerprint (request_body n id secret))

  -- If the service answers with a status other than 200, if its certificate has another
  -- fingerprint, if it does not answer, or if the request raises in another way, the join raises
  -- and stores nothing.
  pub join_refused :
      (w : World)
      → ((v : World) (host fingerprint : Json) (body : String)
          → IsFailure (n.post v host fingerprint body))
      → (e : Error) × ((join n h w).0 ≡ raised e) × Between Keeps w.log (join n h w).1.log
  unfolding join
  join_refused w f =
      let (e, p) = request_join-Raises f w in
      let q = bind_raised (request_join n h) _ w e p in
      (e, ap (λ r. r.0) q, rw q ((Keeps-request_join n h).from w))
