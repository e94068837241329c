-- ===== src/Launch/Final.antt =====
-- The status with which `check_server` returns.
use microstack.Base.{
  ℕ, zero, suc, String, eq_iff, ◌≡◌, refl, Bool, true, ◌||◌, [], ◌∷◌, contains, arith,
}
use microstack.Machine.{Host, World}
use microstack.Machine.Monad.{ok, Action, pure, raise, bind-eq-ok}
use microstack.Shell.{sleep}
use microstack.Launch.Server.{
  Args, Poll, Verdict, stop, wait, recreate, again, judge, judge_error, observe, replace, follow,
  poll_loop, check_server, start_poll,
}

-- The statuses that are final for a caller that waits.
abbrev pub final : String → Bool
final = contains ("" ∷ "ACTIVE" ∷ "ERROR" ∷ "BUILD (stuck)" ∷ [])

judge_stop :
    (args : Args) (s t : String) (waits retries : ℕ)
    → judge args s waits retries ≡ stop t
    → (args.wait || args.retry) ≡ true
    → final t ≡ true
unfolding judge judge_error
judge_stop args s t waits retries e p = ground (
  arith,
  eq_iff s "",
  eq_iff s "ACTIVE",
  eq_iff s "ERROR",
  eq_iff s "BUILD (stuck)",
  eq_iff t "",
  eq_iff t "ACTIVE",
  eq_iff t "ERROR",
  eq_iff t "BUILD (stuck)",
)

module _ (h : Host) (name : String) (args : Args) (waits : (args.wait || args.retry) ≡ true) where
  follow-final :
      (p : Poll) (s : String) (v : Verdict) (loop : Poll → Action (String × String)) (w w' : World)
      (t id : String)
      → judge args s p.waits p.retries ≡ v
      → ((q : Poll) (u : World) → loop q u ≡ (ok (t, id), w') → final t ≡ true)
      → follow h name args p loop v w ≡ (ok (t, id), w')
      → final t ≡ true
  unfolding follow pure
  follow-final p s (stop r) loop w w' t id e go f = judge_stop args s t p.waits p.retries (cc) waits
  follow-final p s (wait r) loop w w' t id e go f =
      let (a, v, q, g) = bind-eq-ok (sleep h) _ w w' f in go _ v g
  follow-final p s (recreate r) loop w w' t id e go f =
      let (a, v, q, g) = bind-eq-ok (replace h name args p.server_id) _ w w' f in go _ v g
  follow-final p s (again r) loop w w' t id e go f = go _ w f

  poll_loop-final :
      (rounds : ℕ) (p : Poll) (w w' : World) (t id : String)
      → poll_loop h name args rounds p w ≡ (ok (t, id), w')
      → final t ≡ true
  unfolding poll_loop raise
  poll_loop-final zero p w w' t id e = absurd (cc)
  poll_loop-final (suc rounds) p w w' t id e =
      let (s, v, q, g) = bind-eq-ok (observe h p) _ w w' e in
      follow-final p s _ (poll_loop h name args rounds) v w' t id refl
        (λ q' u k. poll_loop-final rounds q' u w' t id k) g

  -- With `--wait` or `--retry`, a server whose status is BUILD is never returned: the status is
  -- ACTIVE, ERROR, "BUILD (stuck)" or empty.
  pub check_server-final :
      (server_id : String) (w w' : World) (t id : String)
      → check_server h name server_id args w ≡ (ok (t, id), w')
      → final t ≡ true
  unfolding check_server
  check_server-final server_id w w' t id e =
      poll_loop-final h.patience (start_poll server_id) w w' t id e
