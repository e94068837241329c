-- ===== src/Launch/Retries.antt =====
-- How many servers `check_server` creates.
use microstack.Base.{ℕ, zero, suc, ◌+◌, ◌≤◌, String, ◌≡◌, refl, [], ◌∷◌, ◌==◌, if◌then◌else◌, arith}
use microstack.Machine.{Host, World, History, Event, command}
use microstack.Machine.Monad.{Outcome, ok, raised, Action, pure, raise, continue, ◌>>=◌}
use microstack.Shell.{check, check_output, sleep}
use microstack.Launch.Server.{
  Args, Poll, Verdict, stop, wait, recreate, again, judge, observe, replace, follow, poll_loop,
  check_server, start_poll, create_server, delete_server,
}
use microstack.Launch.Polling.{judge_recreate}

-- 1 for the command `openstack server create …`.
abbrev creation : Event → ℕ
creation (command (a ∷ b ∷ c ∷ rest)) = if c == "create" then 1 else 0
creation _ = 0

abbrev pub creations : History → ℕ
creations [] = 0
creations (e ∷ log) = creation e + creations log

-- `m` creates at most `n` servers.
abbrev Creates : {A : Type 0} → ℕ → Action A → Type 0
Creates n m = (w : World) → creations (m w).1.log ≤ creations w.log + n

observe-Creates : (h : Host) (p : Poll) → Creates 0 (observe h p)
unfolding observe check_output ◌>>=◌
observe-Creates h p w = ground arith

replace-Creates :
    (h : Host) (name : String) (args : Args) (id : String) → Creates 1 (replace h name args id)
unfolding replace create_server delete_server check check_output ◌>>=◌
replace-Creates h name args id w = ground arith

sleep-Creates : (h : Host) → Creates 0 (sleep h)
unfolding sleep
sleep-Creates h w = omega arith

bind-Creates :
    {A B : Type 0} (n k t : ℕ) (m : Action A) (f : A → Action B) (w : World)
    → n + k ≡ t
    → Creates n m
    → ((a : A) (v : World) → creations (f a v).1.log ≤ creations v.log + k)
    → creations ((m >>= f) w).1.log ≤ creations w.log + t
unfolding ◌>>=◌
bind-Creates {A} {B} n k t m f w s p q = go (m w) (p w)
  where
    go :
        (r : Outcome A × World)
        → creations r.1.log ≤ creations w.log + n
        → creations (continue r.0 f r.1).1.log ≤ creations w.log + t
    go (ok a, v) b = omega (arith, q a v)
    go (raised x, v) b = omega arith

module _ (h : Host) (name : String) (args : Args) where
  follow-Creates :
      (p : Poll) (s : String) (v : Verdict) (loop : Poll → Action (String × String)) (w : World)
      (left : ℕ)
      → judge args s p.waits p.retries ≡ v
      → p.retries + left ≡ 11
      → ((q : Poll) (u : World) (k : ℕ)
          → q.retries + k ≡ 11
          → creations (loop q u).1.log ≤ creations u.log + k)
      → creations (follow h name args p loop v w).1.log ≤ creations w.log + left
  unfolding follow pure
  follow-Creates p s (stop t) loop w left e r go = omega arith
  follow-Creates p s (wait t) loop w left e r go =
      bind-Creates 0 left left (sleep h) _ w (omega arith) (sleep-Creates h) (λ _ v. go _ v left r)
  follow-Creates p s (recreate t) loop w zero e r go =
      absurd (omega (arith, judge_recreate args s t p.waits p.retries e))
  follow-Creates p s (recreate t) loop w (suc left) e r go =
      bind-Creates 1 left (suc left) (replace h name args p.server_id) _ w (omega arith)
        (replace-Creates h name args p.server_id) (λ id v. go _ v left (omega arith))
  follow-Creates p s (again t) loop w left e r go = go _ w left r

  poll_loop-Creates :
      (rounds : ℕ) (p : Poll) (w : World) (left : ℕ)
      → p.retries + left ≡ 11
      → creations (poll_loop h name args rounds p w).1.log ≤ creations w.log + left
  unfolding poll_loop raise
  poll_loop-Creates zero p w left r = omega arith
  poll_loop-Creates (suc rounds) p w left r =
      bind-Creates 0 left left (observe h p) _ w (omega arith) (observe-Creates h p) λ s v.
        follow-Creates p s _ (poll_loop h name args rounds) v left refl r
          (λ q u k. poll_loop-Creates rounds q u k)

  -- However long it polls, and however it ends, `check_server` creates at most eleven servers.
  pub check_server-Creates :
      (server_id : String) (w : World)
      → creations (check_server h name server_id args w).1.log ≤ creations w.log + 11
  unfolding check_server
  check_server-Creates server_id w =
      poll_loop-Creates h.patience (start_poll server_id) w 11 (omega arith)
