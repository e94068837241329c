-- ===== src/Launch/Launched.antt =====
-- When `launch` makes a server reachable.
use microstack.Base.{
  String, ◌==◌, eq_iff, ◌≡◌, refl, subst, Bool, true, false, not, ◌||◌, Bool-cases, inl, inr, arith,
}
use microstack.Machine.{Host, World, Error, system_exit}
use microstack.Machine.Monad.{ok, pure, branch, raise_if, bind-eq-ok}
use microstack.Launch.Server.{Args, create_server, check_server}
use microstack.Launch.Final.{final, check_server-final}
use microstack.Launch.{Report, check_keypair, running, publish, launch}

-- How a launch that returned has gone: `check_server` returned a status, and then the floating ip
-- was made and the report written for the server that it returned.
pub record IsLaunched (h : Host) (name : String) (args : Args) (r : Report) (w' : World)
    : Type 0 where
  pub created : String
  pub server_id : String
  pub key_path : String
  pub status : String
  pub before : World
  pub at : World
  pub checks : check_server h name created args before ≡ (ok (status, server_id), at)
  pub runs : running status ≡ true
  pub publishes : publish h args key_path status server_id at ≡ (ok r, w')

raise_if-eq-ok :
    (b : Bool) (x : Error) (w v : World) → raise_if b x w ≡ (ok tt, v) → (b ≡ false) × (v ≡ w)
unfolding raise_if
raise_if-eq-ok true x w v e = absurd (cc)
raise_if-eq-ok false x w v e = (refl, cc)

not-eq-false : (b : Bool) → not b ≡ false → b ≡ true
not-eq-false true e = refl
not-eq-false false e = cc

module _ (h : Host) (name : String) (args : Args) where
  launch-IsLaunched :
      (r : Report) (w w' : World) → launch h name args w ≡ (ok r, w') → IsLaunched h name args r w'
  unfolding launch
  launch-IsLaunched r w w' e =
      let (k, v₁, p₁, e₁) =
        bind-eq-ok (branch (args.key == "microstack") (check_keypair h) (pure "/path/to/ssh/key")) _
          w w' e in
      let (c, v₂, p₂, e₂) = bind-eq-ok (create_server h name args) _ v₁ w' e₁ in
      let (s, v₃, p₃, e₃) = bind-eq-ok (check_server h name c args) _ v₂ w' e₂ in
      let (u, v₄, p₄, e₄) = bind-eq-ok (raise_if (not (running s.0)) (system_exit 1)) _ v₃ w' e₃ in
      let (b, same) = raise_if-eq-ok (not (running s.0)) (system_exit 1) v₃ v₄ p₄ in
      record {
        created = c;
        server_id = s.1;
        key_path = k;
        status = s.0;
        before = v₂;
        at = v₃;
        checks = p₃;
        runs = not-eq-false (running s.0) b;
        publishes = rw (← same) e₄;
      }

active_of : (s : String) → running s ≡ true → final s ≡ true → s ≡ "ACTIVE"
active_of s r f = elim (Bool-cases (s == "BUILD")) [
  | inl e ↦
      let f' : final "BUILD" ≡ true = subst (λ t. final t ≡ true) ((eq_iff s "BUILD").0 e) f in
      absurd (cc)
  | inr e ↦ ground (arith, eq_iff s "ACTIVE")
]

module _ (h : Host) (name : String) (args : Args) where
  -- A launch that returns after waiting has an ACTIVE server: what it gave a floating ip, and what
  -- it reports on, is a server that `check_server` returned as ACTIVE.
  pub launch_waits :
      (r : Report) (w w' : World)
      → (args.wait || args.retry) ≡ true
      → launch h name args w ≡ (ok r, w')
      → (l : IsLaunched h name args r w') × (l.status ≡ "ACTIVE")
  launch_waits r w w' waits e =
      let l = launch-IsLaunched h name args r w w' e in
      (
        l,
        active_of l.status l.runs (
            check_server-final h name args waits l.created l.before l.at l.status l.server_id
              l.checks),
      )
