-- ===== src/Pexpect/Expect/Returns.antt =====
-- How `expect_loop` ends: its deadline, and `EOF` and `TIMEOUT` in a pattern list.
use cush.Prelude.{
  ℕ, ◌≡◌, refl, ◌⊎◌, inl, inr, Bool, true, false, Option, none, some, List, [], ◌∷◌, length,
  Option-cases,
}
use cush.Prelude.Int.{ℤ, ◌+ℤ◌, ◌-ℤ◌, is_negative}
use cush.Prelude.Text.{Text}
use cush.Pexpect.Searcher.{Hit}
use cush.Pexpect.Expect.{
  Exception, Slot, Search, Spawn, Round, Outcome, attempt, deadline, default_timeout,
  default_window, end_of_file, expect_loop, expired, failure, fresh, grow, handle, loop, nothing,
  other_error, proceed, raised, remaining, report, resolve, returned, settle, timed_out, type_eof,
  type_timeout, waiting,
}

-- One of the rounds ends past the deadline.
abbrev pub PassesDeadline : ℤ → List Round → Type 0
PassesDeadline end_time [] = ⊥
PassesDeadline end_time (r ∷ rounds) =
    (is_negative (end_time -ℤ r.now) ≡ true) ⊎ PassesDeadline end_time rounds

module _ {M : Type 0} where
  abbrev pub Ends : Outcome × Spawn M → Type 0
  Ends (waiting, s) = ⊥
  Ends (returned i, s) = Unit
  Ends (raised e, s) = Unit

  report-Ends :
      (self : Spawn M) (e : Exception) (m : Slot M) (i : Option ℕ) → Ends (report self e m i)
  report-Ends self e m none = tt
  report-Ends self e m (some i) = tt

  handle-Ends :
      (searcher : Search M) (self : Spawn M) (incoming : Text) (e : Exception)
      → Ends (handle searcher self incoming e)
  handle-Ends searcher self incoming end_of_file =
      report-Ends (record self { buffer = []; before = some incoming; after = type_eof })
        end_of_file type_eof searcher.eof_index
  handle-Ends searcher self incoming timed_out =
      report-Ends (record self { buffer = incoming; before = some incoming; after = type_timeout })
        timed_out type_timeout searcher.timeout_index
  handle-Ends searcher self incoming other_error = tt

  module _ (searcher : Search M) (self : Spawn M) where
    proceed-Ends :
        (incoming : Text) (found : Option (Hit M)) (late : Bool) (e : Option Exception)
        (rest : Outcome × Spawn M)
        → Ends rest
        → Ends (proceed searcher self incoming (settle searcher self incoming found late) e rest)
    proceed-Ends incoming (some h) late e rest k = tt
    proceed-Ends incoming none true e rest k = handle-Ends searcher self incoming timed_out
    proceed-Ends incoming none false (some e) rest k = handle-Ends searcher self incoming e
    proceed-Ends incoming none false none rest k = k

    -- With the deadline past, the round at hand is the last.
    settle_late-Ends :
        (incoming : Text) (found : Option (Hit M)) (e : Option Exception) (rest : Outcome × Spawn M)
        → Ends (proceed searcher self incoming (settle searcher self incoming found true) e rest)
    settle_late-Ends incoming (some h) e rest = tt
    settle_late-Ends incoming none e rest = handle-Ends searcher self incoming timed_out

    module _ (window : Option ℤ) (end_time : ℤ) where
      loop_late-Ends :
          (incoming : Text) (freshlen : ℕ) (timeout : Option ℤ) (rounds : List Round)
          → expired timeout ≡ true
          → Ends (loop searcher window (some end_time) self incoming freshlen timeout rounds)
      unfolding loop attempt
      loop_late-Ends incoming freshlen timeout [] h = rw h (settle_late-Ends incoming _ none _)
      loop_late-Ends incoming freshlen timeout (r ∷ rounds) h =
          rw h (settle_late-Ends incoming _ (failure r.read) _)

      loop-Ends :
          (incoming : Text) (freshlen : ℕ) (timeout : Option ℤ) (rounds : List Round)
          → PassesDeadline end_time rounds
          → Ends (loop searcher window (some end_time) self incoming freshlen timeout rounds)
      unfolding loop attempt
      loop-Ends incoming freshlen timeout [] h = absurd h
      loop-Ends incoming freshlen timeout (r ∷ rounds) (inl late) =
          proceed-Ends incoming (searcher.search incoming freshlen window) (expired timeout)
            (failure r.read) _
            (loop_late-Ends (grow incoming r.read) (fresh freshlen r.read)
              (remaining (some end_time) r.now) rounds late)
      loop-Ends incoming freshlen timeout (r ∷ rounds) (inr later) =
          proceed-Ends incoming (searcher.search incoming freshlen window) (expired timeout)
            (failure r.read) _
            (loop-Ends (grow incoming r.read) (fresh freshlen r.read)
              (remaining (some end_time) r.now) rounds later)

    -- With a timeout, `expect_loop` ends once a read ends past the deadline, whatever was read: it
    -- returns an index or raises, and does not wait on.
    pub expect_loop-Ends :
        (seconds : ℤ) (timeout searchwindowsize : Option ℤ) (now : ℤ) (rounds : List Round)
        → resolve default_timeout self.timeout timeout ≡ some seconds
        → PassesDeadline (now +ℤ seconds) rounds
        → Ends (expect_loop searcher self timeout searchwindowsize now rounds)
    unfolding expect_loop
    expect_loop-Ends seconds timeout searchwindowsize now rounds e h =
        let window = resolve default_window self.searchwindowsize searchwindowsize in
        rw e (
          loop-Ends window (now +ℤ seconds) self.buffer (length self.buffer) (some seconds) rounds
            h)

  -- A result as it would be if neither exception type were in the pattern list.
  abbrev pub raise_types : Slot Text → Outcome → Spawn M → Outcome × Spawn M
  raise_types type_eof o s = (raised end_of_file, record s { match = nothing; match_index = none })
  raise_types type_timeout o s =
      (raised timed_out, record s { match = nothing; match_index = none })
  raise_types _ o s = (o, s)

  abbrev pub uncaught : Outcome × Spawn M → Outcome × Spawn M
  uncaught (waiting, s) = (waiting, s)
  uncaught (returned i, s) = raise_types s.after (returned i) s
  uncaught (raised e, s) = raise_types s.after (raised e) s

  -- The searcher with neither exception type, and with the patterns at their places in the list.
  abbrev pub without_types : Search M → Search M
  without_types searcher = record searcher { eof_index = none; timeout_index = none }

  module _ (searcher : Search M) (self : Spawn M) where
    handle-without_types :
        (incoming : Text) (e : Exception)
        → handle (without_types searcher) self incoming e
          ≡ uncaught (handle searcher self incoming e)
    handle-without_types incoming end_of_file = elim (Option-cases searcher.eof_index) [
      | inl p ↦ rw p
      | inr (i, p) ↦ rw p
    ]
    handle-without_types incoming timed_out = elim (Option-cases searcher.timeout_index) [
      | inl p ↦ rw p
      | inr (i, p) ↦ rw p
    ]
    handle-without_types incoming other_error = refl

    proceed-without_types :
        (incoming : Text) (found : Option (Hit M)) (late : Bool) (e : Option Exception)
        (rest rest' : Outcome × Spawn M)
        → rest' ≡ uncaught rest
        → proceed
            (without_types searcher)
            self
            incoming
            (settle (without_types searcher) self incoming found late)
            e
            rest'
          ≡ uncaught
              (proceed searcher self incoming (settle searcher self incoming found late) e rest)
    proceed-without_types incoming (some h) late e rest rest' k = refl
    proceed-without_types incoming none true e rest rest' k =
        handle-without_types incoming timed_out
    proceed-without_types incoming none false (some e) rest rest' k =
        handle-without_types incoming e
    proceed-without_types incoming none false none rest rest' k = k

    loop-without_types :
        (window end_time : Option ℤ) (incoming : Text) (freshlen : ℕ) (timeout : Option ℤ)
        (rounds : List Round)
        → loop (without_types searcher) window end_time self incoming freshlen timeout rounds
          ≡ uncaught (loop searcher window end_time self incoming freshlen timeout rounds)
    unfolding loop attempt
    loop-without_types window end_time incoming freshlen timeout [] =
        proceed-without_types incoming (searcher.search incoming freshlen window) (expired timeout)
          none (waiting, self) (waiting, self) refl
    loop-without_types window end_time incoming freshlen timeout (r ∷ rounds) =
        proceed-without_types incoming (searcher.search incoming freshlen window) (expired timeout)
          (failure r.read) _ _
          (loop-without_types window end_time (grow incoming r.read) (fresh freshlen r.read)
            (remaining end_time r.now) rounds)

    -- Without the indices of the types, and with the indices of the patterns as they were.
    pub expect_loop-without_types :
        (timeout searchwindowsize : Option ℤ) (now : ℤ) (rounds : List Round)
        → expect_loop (without_types searcher) self timeout searchwindowsize now rounds
          ≡ uncaught (expect_loop searcher self timeout searchwindowsize now rounds)
    unfolding expect_loop
    expect_loop-without_types timeout searchwindowsize now rounds =
        let t = resolve default_timeout self.timeout timeout in
        loop-without_types (resolve default_window self.searchwindowsize searchwindowsize)
          (deadline now t) self.buffer (length self.buffer) t rounds
