-- ===== src/Pexpect/Process/Terminal.antt =====
-- pexpect-dpty/pexpect.py: `close` and `read_nonblocking` of `spawn`.
use cush.Prelude.{Bool, true, false, not, ℕ, Option, none, some, [], ◌∷◌, ◌++◌, if◌then◌else◌}
use cush.Prelude.Int.{ℤ, negsuc, pos}
use cush.Prelude.Text.{Text}
use cush.Pexpect.Expect.{default_timeout, resolve}
use cush.Pexpect.Drain.{stop}
use cush.Pexpect.Process.{
  Action, Os, Process, Reply, delay, done, eof_error, fail, fails, isalive, os_error, pexpect_error,
  pure, terminate, timeout_error, value_error, ◌>>=◌,
}

module _ {W : Type 0} (os : Os W) where
  -- close
  abbrev pub mark_closed : Action W Bool
  mark_closed (p, w) = (done true, (record p { child_fd = negsuc 0; closed = true }, w))

  abbrev pub stop_drain : Process → Process
  stop_drain p = if p.drain.drainpty then record p { drain = stop p.drain } else p

  abbrev pub close_fd_with : Process → Bool × W → Reply Bool × (Process × W)
  close_fd_with p (true, w) = (done true, (p, w))
  close_fd_with p (false, w) = (fails os_error, (p, w))

  abbrev pub close_open : Action W Bool
  close_open (p, w) = close_fd_with (stop_drain p) (os.close_fd p.child_fd w)

  unfoldable pub closing : Bool → Action W Bool
  unfolding isalive terminate stop
  closing force = do
    _ ← close_open
    _ ← delay os
    alive ← isalive os
    killed ← if alive then terminate os force else pure true
    if killed then mark_closed else fail pexpect_error

  unfoldable pub close : Bool → Action W Bool
  unfolding closing
  close force (p, w) = if p.closed then (done true, (p, w)) else closing force (p, w)

  -- read_nonblocking
  abbrev pub end_of_file_here : {A : Type 0} → Action W A
  end_of_file_here (p, w) = (fails eof_error, (record p { flag_eof = true }, w))

  abbrev pub ready : Option ℤ → Action W Bool
  ready timeout (p, w) = let (r, w') = os.select timeout w in (done r, (p, w'))

  abbrev pub log : Text → Option Text → Option Text
  log s none = none
  log s (some l) = some (l ++ s)

  abbrev pub logged : Text → Process → Process
  logged s p = record p { logfile = log s p.logfile; logfile_read = log s p.logfile_read }

  abbrev pub take_text : Process → Option Text × W → Reply Text × (Process × W)
  take_text p (none, w) = end_of_file_here (p, w)
  take_text p (some [], w) = end_of_file_here (p, w)
  take_text p (some (c ∷ s), w) = (done (c ∷ s), (logged (c ∷ s) p, w))

  abbrev pub read_text : ℕ → Action W Text
  read_text size (p, w) = take_text p (os.read size w)

  -- The look at the child before the read: a dead child is an end of file if there is nothing left.
  abbrev pub look_dead : Action W Bool
  look_dead = do r ← ready (some (pos 0)); if r then pure true else end_of_file_here

  abbrev pub irix_gone : Action W Bool
  irix_gone = do alive ← isalive os; if alive then pure true else end_of_file_here

  abbrev pub look_irix : Action W Bool
  look_irix = do r ← ready (some (pos 2000)); if r then pure true else irix_gone

  abbrev pub look_alive : Action W Bool
  look_alive (p, w) = if p.irix_hack then look_irix (p, w) else (done true, (p, w))

  abbrev pub not_ready : Action W Text
  not_ready = do alive ← isalive os; if not alive then end_of_file_here else fail timeout_error

  unfoldable pub reading : ℕ → Option ℤ → Action W Text
  unfolding isalive
  reading size timeout = do
    alive ← isalive os
    _ ← if not alive then look_dead else look_alive
    r ← ready timeout
    if not r then not_ready else read_text size

  unfoldable pub read_nonblocking : ℕ → Option ℤ → Action W Text
  unfolding reading
  read_nonblocking size timeout (p, w) =
      if p.closed
      then (fails value_error, (p, w))
      else reading size (resolve default_timeout p.read_timeout timeout) (p, w)
