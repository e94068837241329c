-- ===== src/Launch/Polling.antt =====
-- The loop of `check_server` ends, if the server is always listed as being built, active or
-- failed.
use microstack.Base.{
  ℕ, zero, suc, ◌+◌, ◌-◌, ◌*◌, ◌≤◌, ◌<◌, String, eq_iff, ◌≡◌, ◌≢◌, refl, Bool, true, [], ◌∷◌,
  contains, arith,
}
use microstack.Machine.{Host, World, still_waiting}
use microstack.Machine.Monad.{Outcome, ok, raised, Action, and_then}
use microstack.Machine.Ends.{
  Ends, Ends-pure, Ends-lift, Ends-or_raise, Ends-bind, Ends-bind_from, Ends-then,
}
use microstack.Json.{str, obj, end, Json, arr, Items, nil, cons}
use microstack.Shell.{sleep}
use microstack.Shell.Ends.{Ends-check, Ends-check_output, Ends-sleep}
use microstack.Launch.Server.{
  Args, Poll, Verdict, stop, wait, recreate, again, judge, judge_error, observe, replace, follow,
  poll_loop, check_server, start_poll, create_server, delete_server, listed_status, scan,
  entry_status, status_of, id_of,
}

-- The statuses that the loop knows how to leave or to wait on.
abbrev pub known : String → Bool
known = contains ("" ∷ "BUILD" ∷ "ACTIVE" ∷ "ERROR" ∷ [])

-- The ids of a set are those of servers that are always listed with a known status, and so is
-- every server that is created in place of another.
pub record Settles (h : Host) (name : String) (args : Args) (listed : String → Type 0)
    : Type 0 where
  pub shown :
      (p : Poll) (s : String) (w v : World)
      → listed p.server_id
      → observe h p w ≡ (ok s, v)
      → known s ≡ true
  pub replaced :
      (id new : String) (w v : World) → replace h name args id w ≡ (ok new, v) → listed new

-- How many rounds are left at most.
abbrev measure : Poll → ℕ
measure p = (11 - p.retries) * 1003 + (1001 - p.waits)

judge-known :
    (args : Args) (s t : String) (waits retries : ℕ)
    → known s ≡ true
    → judge args s waits retries ≢ again t
unfolding judge judge_error
judge-known args s t waits retries k e =
    ground (arith, eq_iff s "", eq_iff s "BUILD", eq_iff s "ACTIVE", eq_iff s "ERROR")

judge_wait :
    (args : Args) (s t : String) (waits retries : ℕ)
    → judge args s waits retries ≡ wait t
    → waits ≤ 1000
unfolding judge judge_error
judge_wait args s t waits retries e = ground arith

pub judge_recreate :
    (args : Args) (s t : String) (waits retries : ℕ)
    → judge args s waits retries ≡ recreate t
    → retries ≤ 10
unfolding judge judge_error
judge_recreate args s t waits retries e = ground arith

id_of_ends : (j : Json) → id_of j ≢ raised still_waiting
unfolding id_of
id_of_ends j e = ground arith

entry_status_ends :
    (h : Host) (j : Json) (id s : String) → entry_status h j id s ≢ raised still_waiting
unfolding entry_status status_of
entry_status_ends h j id s e = ground arith

and_then_ends :
    (r : Outcome String) (f : String → Outcome String)
    → r ≢ raised still_waiting
    → ((a : String) → f a ≢ raised still_waiting)
    → and_then r f ≢ raised still_waiting
unfolding and_then
and_then_ends (ok a) f p q = q a
and_then_ends (raised x) f p q = p

scan_ends : (h : Host) (l : Items) (id s : String) → scan h l id s ≢ raised still_waiting
unfolding scan
scan_ends h nil id s e = cc
scan_ends h (cons x l) id s e =
    and_then_ends (entry_status h x id s) (scan h l id) (entry_status_ends h x id s)
      (scan_ends h l id) e

listed_status_ends :
    (h : Host) (j : Json) (id s : String) → listed_status h j id s ≢ raised still_waiting
unfolding listed_status
listed_status_ends h (arr l) id s e = scan_ends h l id s e
listed_status_ends h (str t) id s e = ground arith
listed_status_ends h (obj end) id s e = cc
listed_status_ends h _ id s e = cc

module _ (h : Host) (name : String) (args : Args) where
  Ends-observe : (p : Poll) → Ends (observe h p)
  unfolding observe
  Ends-observe p = Ends-bind _ _ (Ends-check_output h _) λ text.
      Ends-bind _ _ (Ends-or_raise _ _ (λ e. cc))
        λ servers. Ends-lift _ (listed_status_ends h servers p.server_id p.status)

  Ends-replace : (id : String) → Ends (replace h name args id)
  unfolding replace create_server delete_server
  Ends-replace id = Ends-then _ _ (Ends-check h _) (
      Ends-bind _ _ (Ends-check_output h _)
        λ text. Ends-bind _ _ (Ends-or_raise _ _ (λ e. cc)) λ ret. Ends-lift _ (id_of_ends ret))

module _ (h : Host) (name : String) (args : Args) (listed : String → Type 0)
    (settles : Settles h name args listed) where
  follow_ends :
      (p : Poll) (s : String) (v : Verdict) (loop : Poll → Action (String × String)) (w : World)
      → judge args s p.waits p.retries ≡ v
      → known s ≡ true
      → listed p.server_id
      → p.retries ≤ 11
      → p.waits ≤ 1001
      → ((q : Poll) (u : World)
          → listed q.server_id
          → q.retries ≤ 11
          → q.waits ≤ 1001
          → measure q < measure p
          → (loop q u).0 ≢ raised still_waiting)
      → (follow h name args p loop v w).0 ≢ raised still_waiting
  unfolding follow
  follow_ends p s (stop t) loop w e k i r m go = (Ends-pure _).from w
  follow_ends p s (wait t) loop w e k i r m go =
      let b = judge_wait args s t p.waits p.retries e in
      Ends-bind_from (sleep h) _ w ((Ends-sleep h).from w)
        λ a v f. go _ v i r (omega arith) (omega arith)
  follow_ends p s (recreate t) loop w e k i r m go =
      let b = judge_recreate args s t p.waits p.retries e in
      Ends-bind_from (replace h name args p.server_id) _ w ((Ends-replace h name args _).from w)
        λ a v f. go _ v (settles.replaced _ a w v f) (omega arith) (omega arith) (omega arith)
  follow_ends p s (again t) loop w e k i r m go =
      absurd (judge-known args s t p.waits p.retries k e)

  poll_loop_ends :
      (rounds : ℕ) (p : Poll) (w : World)
      → listed p.server_id
      → p.retries ≤ 11
      → p.waits ≤ 1001
      → measure p < rounds
      → (poll_loop h name args rounds p w).0 ≢ raised still_waiting
  unfolding poll_loop
  poll_loop_ends zero p w i r m f = elim f [ ]
  poll_loop_ends (suc rounds) p w i r m f =
      Ends-bind_from (observe h p) _ w ((Ends-observe h name args p).from w) λ s v e.
        follow_ends p s _ (poll_loop h name args rounds) v refl (settles.shown p s w v i e) i r m
          (λ q u i' r' m' lt. poll_loop_ends rounds q u i' r' m' (omega arith))

  -- If the server, and each that is created in its place, is always listed with a status that the
  -- loop knows, 12035 rounds are enough: `check_server` does not poll on.
  pub check_server_ends :
      (server_id : String) (w : World)
      → listed server_id
      → 12034 < h.patience
      → (check_server h name server_id args w).0 ≢ raised still_waiting
  unfolding check_server
  check_server_ends server_id w i f =
      poll_loop_ends h.patience (start_poll server_id) w i (omega arith) (omega arith) (omega arith)
