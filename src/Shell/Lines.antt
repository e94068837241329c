-- ===== src/Shell/Lines.antt =====
-- The wait for a line of a log file, round by round.
use microstack.Base.{
  ℕ, zero, suc, ◌<◌, String, ◌≡◌, refl, true, false, some, ◌∷◌, arith, any, has_part, readlines,
}
use microstack.Machine.{read, slept, History, Host, World}
use microstack.Machine.Monad.{ok}
use microstack.Shell.{log_loop, log_wait}
use microstack.Shell.Waits.{rounds_of}

module _ (h : Host) (log message : String) where
  -- The file is there in each round, and a line has the message in the last one alone.
  pub record AppearsAfter (n : ℕ) (old : History) : Type 0 where
    pub written :
        (k : ℕ)
        → k < n
        → (text : String) × (h.content (rounds_of (read log) k old) log ≡ some text)
          × (any (has_part message) (readlines text) ≡ false)
    pub last : String
    pub has_file : h.content (rounds_of (read log) n old) log ≡ some last
    pub appears : any (has_part message) (readlines last) ≡ true

  later :
      (n : ℕ) (old : History) → AppearsAfter (suc n) old → AppearsAfter n (slept ∷ read log ∷ old)
  later n old o = record {
    written = λ k l. o.written (suc k) (omega arith);
    last = o.last;
    has_file = o.has_file;
    appears = o.appears;
  }

  log_loop-AppearsAfter :
      (n rounds : ℕ) (w : World)
      → n < rounds
      → AppearsAfter n w.log
      → log_loop h rounds log message w
        ≡ (ok tt, record w { log = read log ∷ rounds_of (read log) n w.log })
  unfolding log_loop
  log_loop-AppearsAfter n zero w l o = absurd (omega arith)
  log_loop-AppearsAfter zero (suc rounds) w l o =
      rw (o.has_file, log_loop) (rw (o.appears, log_loop) refl)
  log_loop-AppearsAfter (suc n) (suc rounds) w l o =
      let (text, e, f) = o.written 0 (omega arith) in
      rw (e, log_loop)
        (rw (f, log_loop) (log_loop-AppearsAfter n rounds _ (omega arith) (later n w.log o)))

  -- A wait for a line that appears after some rounds, fewer than the host is patient for, returns
  -- as soon as it is there.
  pub log_wait-AppearsAfter :
      (n : ℕ) (w : World)
      → n < h.patience
      → AppearsAfter n w.log
      → log_wait h log message w
        ≡ (ok tt, record w { log = read log ∷ rounds_of (read log) n w.log })
  unfolding log_wait
  log_wait-AppearsAfter n w l o = log_loop-AppearsAfter n h.patience w l o
