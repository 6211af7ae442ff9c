-- ===== src/Pexpect/Drain/Loss.antt =====
-- The end of the reader thread, and the reads of the expect loop behind it.
use cush.Prelude.{◌≡◌, refl, false, Option, none, List, [], ◌∷◌, ◌++◌, length}
use cush.Prelude.Int.{ℤ}
use cush.Prelude.Text.{Text}
use cush.Pexpect.Expect.{
  Search, Spawn, default_timeout, default_window, end_of_file, expect_loop, expired, handle,
  resolve,
}
use cush.Pexpect.Drain.{Turn, after_turns, raises, read_more, rounds}
use cush.Pexpect.Drain.Queue.{all_queued, finishing, reading, run-finishing}

-- The schedule of one turn in which the thread reads these chunks and ends before the loop reads.
abbrev pub late_turn : List Text → ℤ → Turn
late_turn chunks now = record { ticks = finishing chunks; direct = raises end_of_file; now = now }

module _ {M : Type 0} (searcher : Search M) (self : Spawn M) where
  -- If the thread ends before the loop's read, a loop that finds nothing in its old buffer ends with
  -- `EOF` and an empty buffer whatever the thread has read: all of it is left in the queue, and
  -- `before` is the old buffer alone.
  pub expect_loop_loses :
      (q : List (Option Text)) (chunks : List Text) (timeout searchwindowsize : Option ℤ)
      (start now : ℤ)
      → searcher.search self.buffer
          (length self.buffer)
          (resolve default_window self.searchwindowsize searchwindowsize)
        ≡ none
      → expired (resolve default_timeout self.timeout timeout) ≡ false
      → (expect_loop searcher self timeout searchwindowsize start
            (rounds (reading q) (late_turn chunks now ∷ []))
          ≡ handle searcher self self.buffer end_of_file)
        × ((after_turns (reading q) (late_turn chunks now ∷ [])).read_queue
            ≡ q ++ all_queued chunks)
  unfolding expect_loop rounds after_turns read_more
  expect_loop_loses q chunks timeout searchwindowsize start now h k =
      (rw (run-finishing q chunks) (rw (h, k) refl), rw (after_turns, run-finishing q chunks))
