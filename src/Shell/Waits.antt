-- ===== src/Shell/Waits.antt =====
-- The wait for a port, round by round.
use microstack.Base.{ℕ, zero, suc, ◌<◌, ◌≤◌, none, String, ◌≡◌, refl, true, false, ◌∷◌, arith}
use microstack.Machine.{Event, connected, slept, History, Host, World}
use microstack.Machine.Monad.{ok, raise_if, ◌>>=◌}
use microstack.Shell.{connect_loop, nc_wait}

-- The history after some rounds of a loop, each of which looked once and slept.
abbrev pub rounds_of : Event → ℕ → History → History
rounds_of look zero log = log
rounds_of look (suc n) log = rounds_of look n (slept ∷ look ∷ log)

module _ (h : Host) (addr port : String) where
  -- The port is a number and can be tried; it is closed for some rounds and open in the next one.
  pub record OpensAfter (n : ℕ) (log : History) : Type 0 where
    pub reads : h.reads_int port ≡ true
    pub dials : (k : ℕ) → k ≤ n → h.dial (rounds_of (connected addr port) k log) addr port ≡ none
    pub closed :
        (k : ℕ) → k < n → h.is_open (rounds_of (connected addr port) k log) addr port ≡ false
    pub opens : h.is_open (rounds_of (connected addr port) n log) addr port ≡ true

  later :
      (n : ℕ) (log : History)
      → OpensAfter (suc n) log
      → OpensAfter n (slept ∷ connected addr port ∷ log)
  later n log o = record {
    reads = o.reads;
    dials = λ k l. o.dials (suc k) (omega arith);
    closed = λ k l. o.closed (suc k) (omega arith);
    opens = o.opens;
  }

  connect_loop-OpensAfter :
      (n rounds : ℕ) (w : World)
      → n < rounds
      → OpensAfter n w.log
      → connect_loop h rounds addr port w
        ≡ (ok tt, record w { log = connected addr port ∷ rounds_of (connected addr port) n w.log })
  unfolding connect_loop
  connect_loop-OpensAfter n zero w l o = absurd (omega arith)
  connect_loop-OpensAfter zero (suc rounds) w l o =
      rw (o.dials 0 (omega arith), o.opens, connect_loop) refl
  connect_loop-OpensAfter (suc n) (suc rounds) w l o =
      rw (o.dials 0 (omega arith), o.closed 0 (omega arith), connect_loop)
        (connect_loop-OpensAfter n rounds _ (omega arith) (later n w.log o))

  -- A wait for a port that is a number, on an address that can be tried, and that opens after
  -- some rounds, fewer than the host is patient for, returns as soon as the port is open: it has
  -- tried once in each round, and slept after each try that failed.
  pub nc_wait-OpensAfter :
      (n : ℕ) (w : World)
      → n < h.patience
      → OpensAfter n w.log
      → nc_wait h addr port w
        ≡ (ok tt, record w { log = connected addr port ∷ rounds_of (connected addr port) n w.log })
  unfolding nc_wait raise_if ◌>>=◌
  nc_wait-OpensAfter n w l o = rw o.reads (connect_loop-OpensAfter n h.patience w l o)
