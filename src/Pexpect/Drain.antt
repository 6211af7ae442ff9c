-- ===== src/Pexpect/Drain.antt =====
-- pexpect-dpty/pexpect.py: `spawn.Drainpty_Thread`, its queue, and the read of a round of `expect_loop`.
-- The thread and the caller of `expect_loop` are interleaved by an explicit schedule.
pub mod Queue
pub mod Loss
use cush.Prelude.{Bool, true, false, Option, none, some, List, [], ◌∷◌, ◌++◌, if◌then◌else◌}
use cush.Prelude.Int.{ℤ}
use cush.Prelude.Text.{Text}
use cush.Pexpect.Expect.{
  Exception, Read, Round, chunk, closed, empty, end_of_file, failed, other_error, timed_out,
}

-- What a call of `read_nonblocking` does: it returns data, or raises.
pub data PtyRead : Type 0 where
  text : Text → PtyRead
  raises : Exception → PtyRead

-- The state that the thread and its owner share. `running` is false before the thread is started and
-- once `run` is left.
pub record Shared : Type 0 where
  pub drainpty : Bool
  pub running : Bool
  pub keep_reading : Bool
  pub read_queue : List (Option Text)

-- What may happen next: a pass of the thread's loop, with the result of the read, the line behind the
-- loop, or a call of `stop` by the owner.
pub data Tick : Type 0 where
  pass : PtyRead → Tick
  leave : Tick
  halt : Tick

-- One pass: the `try` block of `run`. Any other exception ends the thread where it stands.
abbrev pub pass_loop : Shared → PtyRead → Shared
pass_loop s (text str) = record s { read_queue = s.read_queue ++ some str ∷ [] }
pass_loop s (raises end_of_file) = record s {
  keep_reading = false;
  read_queue = s.read_queue ++ none ∷ [];
}
pass_loop s (raises timed_out) = s
pass_loop s (raises other_error) = record s { running = false }

-- Drainpty_Thread.stop, which `close` calls.
unfoldable pub stop : Shared → Shared
stop s = record s { keep_reading = false }

unfoldable pub tick : Shared → Tick → Shared
unfolding stop
tick s (pass r) = if s.running then (if s.keep_reading then pass_loop s r else s) else s
tick s leave =
    if s.running
    then (if s.keep_reading then s else record s { running = false; drainpty = false })
    else s
tick s halt = stop s

unfoldable pub run : Shared → List Tick → Shared
unfolding tick
run s [] = s
run s (t ∷ ticks) = run (tick s t) ticks

abbrev pub queued : Option Text → Read
queued none = closed
queued (some c) = chunk c

abbrev pub direct_read : PtyRead → Read
direct_read (text c) = chunk c
direct_read (raises e) = failed e

-- readQueue.get(True, timeout): the first item, or `Queue.Empty` once the timeout is over.
abbrev pub get : Shared → List (Option Text) → Read × Shared
get s [] = (empty, s)
get s (x ∷ rest) = (queued x, record s { read_queue = rest })

-- The read of a round: `if self.drainpty: ... else: ...`.
unfoldable pub read_more : Shared → PtyRead → Read × Shared
read_more s direct = if s.drainpty then get s s.read_queue else (direct_read direct, s)

-- What happens around one round: what the thread does before the read, what `read_nonblocking` would
-- give the caller, and the clock behind it.
pub record Turn : Type 0 where
  pub ticks : List Tick
  pub direct : PtyRead
  pub now : ℤ

-- The rounds that `expect_loop` sees under a schedule.
unfoldable pub rounds : Shared → List Turn → List Round
unfolding run read_more
rounds s [] = []
rounds s (t ∷ turns) =
    let (read, s') = read_more (run s t.ticks) t.direct in
    record { read = read; now = t.now } ∷ rounds s' turns

unfoldable pub after_turns : Shared → List Turn → Shared
unfolding run read_more
after_turns s [] = s
after_turns s (t ∷ turns) = after_turns (read_more (run s t.ticks) t.direct).1 turns
