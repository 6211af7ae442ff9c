-- ===== src/Pexpect/Expect.antt =====
-- pexpect-dpty/pexpect.py: `spawn.expect_loop` and its callers, over any searcher. What the reads and
-- the clock yield, round by round, is an argument; times are in milliseconds.
pub mod Account
pub mod Returns
pub mod Listed
pub mod Exact
pub mod Story
pub mod Feed
pub mod Sought
use cush.Prelude.{
  ℕ, ◌-◌, Bool, true, false, Option, none, some, List, [], ◌∷◌, ◌++◌, if◌then◌else◌, length, take,
  drop,
}
use cush.Prelude.Int.{ℤ, negsuc, ◌+ℤ◌, ◌-ℤ◌, ◌==ℤ◌, is_negative}
use cush.Prelude.Text.{Text}
use cush.Pexpect.Searcher.{Hit, Item, Searcher, init, search_string}

-- `EOF`, `TIMEOUT`, and every other exception. Messages are not modelled.
pub data Exception : Type 0 where
  end_of_file timed_out other_error : Exception

-- An attribute that is None, a value, or one of the two exception types.
pub data Slot {ℓ} (A : Type ℓ) : Type ℓ where
  nothing : Slot A
  value : A → Slot A
  type_eof type_timeout : Slot A

-- The searcher object: its `search` method and the two indices.
pub record Search (M : Type 0) : Type 0 where
  pub search : Text → ℕ → Option ℤ → Option (Hit M)
  pub eof_index : Option ℕ
  pub timeout_index : Option ℕ

-- The attributes of `spawn` that `expect_loop` reads and writes.
pub record Spawn (M : Type 0) : Type 0 where
  pub timeout : Option ℤ
  pub searchwindowsize : Option ℤ
  pub buffer : Text
  pub before : Option Text
  pub after : Slot Text
  pub match : Slot M
  pub match_index : Option ℕ

-- What one read gives: data, the `None` that the reader thread queues at the end of the file,
-- `Queue.Empty`, or an exception that leaves the loop.
pub data Read : Type 0 where
  chunk : Text → Read
  closed empty : Read
  failed : Exception → Read

-- One round: the read, and the clock behind it.
pub record Round : Type 0 where
  pub read : Read
  pub now : ℤ

-- `waiting`: the rounds have run out, and the loop blocks in its next read.
pub data Outcome : Type 0 where
  returned : ℕ → Outcome
  raised : Exception → Outcome
  waiting : Outcome

-- timeout < 0 and timeout is not None
abbrev pub expired : Option ℤ → Bool
expired none = false
expired (some t) = is_negative t

-- end_time - time.time(), where there is a timeout
abbrev pub remaining : Option ℤ → ℤ → Option ℤ
remaining none now = none
remaining (some end_time) now = some (end_time -ℤ now)

abbrev pub failure : Read → Option Exception
failure (failed e) = some e
failure _ = none

-- `incoming` and `freshlen` behind a read that raised nothing.
abbrev pub grow : Text → Read → Text
grow incoming (chunk c) = incoming ++ c
grow incoming _ = incoming

abbrev pub fresh : ℕ → Read → ℕ
fresh freshlen (chunk c) = length c
fresh freshlen _ = freshlen

-- timeout == -1, in milliseconds
abbrev pub default_timeout : ℤ
default_timeout = negsuc 999

-- searchwindowsize == -1
abbrev pub default_window : ℤ
default_window = negsuc 0

-- An argument with the default value stands for the attribute of the object.
abbrev pub resolve : ℤ → Option ℤ → Option ℤ → Option ℤ
resolve default attribute none = none
resolve default attribute (some t) = if t ==ℤ default then attribute else some t

-- time.time() + timeout
abbrev pub deadline : ℤ → Option ℤ → Option ℤ
deadline now none = none
deadline now (some t) = some (now +ℤ t)

module _ {M : Type 0} where
  -- if index >= 0
  abbrev pub succeed : Spawn M → Text → Hit M → Outcome × Spawn M
  succeed self incoming h = (
    returned h.index,
    record self {
      buffer = drop h.end incoming;
      before = some (take h.start incoming);
      after = value (take (h.end - h.start) (drop h.start incoming));
      match = value h.match;
      match_index = some h.index;
    },
  )

  abbrev pub report : Spawn M → Exception → Slot M → Option ℕ → Outcome × Spawn M
  report self e m (some index) =
      (returned index, record self { match = m; match_index = some index })
  report self e m none = (raised e, record self { match = nothing; match_index = none })

  -- The three `except` clauses.
  abbrev pub handle : Search M → Spawn M → Text → Exception → Outcome × Spawn M
  handle searcher self incoming end_of_file =
      report (record self { buffer = []; before = some incoming; after = type_eof }) end_of_file
        type_eof searcher.eof_index
  handle searcher self incoming timed_out =
      report (record self { buffer = incoming; before = some incoming; after = type_timeout })
        timed_out type_timeout searcher.timeout_index
  handle searcher self incoming other_error = (
    raised other_error,
    record self { before = some incoming; after = nothing; match = nothing; match_index = none },
  )

  -- A round up to its read, from the hit and the test of the timeout: the result, if the loop ends
  -- there.
  abbrev pub settle : Search M → Spawn M → Text → Option (Hit M) → Bool → Option (Outcome × Spawn M)
  settle searcher self incoming (some h) late = some (succeed self incoming h)
  settle searcher self incoming none true = some (handle searcher self incoming timed_out)
  settle searcher self incoming none false = none

  unfoldable pub attempt :
      Search M → Option ℤ → Spawn M → Text → ℕ → Option ℤ → Option (Outcome × Spawn M)
  attempt searcher window self incoming freshlen timeout =
      settle searcher self incoming (searcher.search incoming freshlen window) (expired timeout)

  -- The end of a round: the result so far, the exception of the read, or the rounds behind it.
  abbrev pub proceed :
      Search M
      → Spawn M
      → Text
      → Option (Outcome × Spawn M)
      → Option Exception
      → Outcome × Spawn M
      → Outcome × Spawn M
  proceed searcher self incoming (some done) e rest = done
  proceed searcher self incoming none (some e) rest = handle searcher self incoming e
  proceed searcher self incoming none none rest = rest

  module _ (searcher : Search M) (window end_time : Option ℤ) (self : Spawn M) where
    unfoldable pub loop : Text → ℕ → Option ℤ → List Round → Outcome × Spawn M
    loop incoming freshlen timeout [] =
        proceed searcher self incoming (attempt searcher window self incoming freshlen timeout) none
          (waiting, self)
    loop incoming freshlen timeout (r ∷ rounds) =
        proceed searcher self incoming (attempt searcher window self incoming freshlen timeout)
          (failure r.read)
          (loop (grow incoming r.read) (fresh freshlen r.read) (remaining end_time r.now) rounds)

  unfoldable pub expect_loop :
      Search M → Spawn M → Option ℤ → Option ℤ → ℤ → List Round → Outcome × Spawn M
  unfolding loop attempt
  expect_loop searcher self timeout searchwindowsize now rounds =
      let t = resolve default_timeout self.timeout timeout in
      let window = resolve default_window self.searchwindowsize searchwindowsize in
      loop searcher window (deadline now t) self self.buffer (length self.buffer) t rounds

-- The object that `searcher_string(pattern_list)` makes.
abbrev pub string_searcher : List (Item Text) → Search Text
string_searcher patterns = record {
  search = search_string (init patterns).searches;
  eof_index = (init patterns).eof_index;
  timeout_index = (init patterns).timeout_index;
}

-- The argument of `expect_exact`: one pattern, or a sequence of them.
pub data PatternList : Type 0 where
  single : Item Text → PatternList
  many : List (Item Text) → PatternList

abbrev pub as_list : PatternList → List (Item Text)
as_list (single p) = p ∷ []
as_list (many ps) = ps

unfoldable pub expect_exact :
    PatternList → Spawn Text → Option ℤ → Option ℤ → ℤ → List Round → Outcome × Spawn Text
unfolding expect_loop
expect_exact pattern_list = expect_loop (string_searcher (as_list pattern_list))
