-- ===== src/Pexpect/Run.antt =====
-- pexpect-dpty/pexpect.py: `run` behind the start of the child: the loop over the events of the child, and
-- the end with or without the exit status.
pub mod Pass
pub mod Step
pub mod Output
pub mod Waits
pub mod Doubled
pub mod Status
mod Tests
use cush.Prelude.{
  ℕ, ◌+◌, zero, suc, Bool, true, false, Option, none, some, List, [], ◌∷◌, ◌++◌, map,
}
use cush.Prelude.Int.{ℤ}
use cush.Prelude.Text.{Text}
use cush.Pexpect.Searcher.{Item}
use cush.Pexpect.Expect.{
  Exception, Outcome, Round, Slot, Spawn, default_timeout, end_of_file, nothing, other_error,
  raised, returned, timed_out, type_eof, type_timeout, value, waiting,
}
use cush.Pexpect.Expect.Story.{unread}
use cush.Pexpect.Pattern.{
  Compiled, Pattern, Patterns, Re, compile_pattern_list, compiles, expect, no_patterns, regex_error,
  searcher_re, several, type_error,
}
use cush.Pexpect.Sending.{Sender, Terminal, send}
use cush.Pexpect.Process.{Failure, Os, Process, Reply, done, fails}
use cush.Pexpect.Process.Terminal.{close}

-- The local variables of `run`, with what the child is to give and the state of the world.
pub record Running (W M : Type 0) : Type 0 where
  pub child : Spawn M
  pub sender : Sender
  pub world : W
  pub rounds : List Round
  pub child_result_list : List (Option Text)
  pub event_count : ℕ

-- What a callback gives: a text, another true value, a false value, or an exception.
pub data Reaction : Type 0 where
  sends : Text → Reaction
  stops goes_on : Reaction
  throws : Exception → Reaction

-- A response: a text, a function of the local variables, which may change them, or something else.
pub data Response (W M : Type 0) : Type 0 where
  reply : Text → Response W M
  callback : (Running W M → Reaction × Running W M) → Response W M
  other_response : Response W M

-- What leaves the function other than by its result: an exception, a TypeError, an error of `re`; or the
-- function still waits.
pub data Escape : Type 0 where
  uncaught : Exception → Escape
  bad_type bad_regex still_waits : Escape

-- How a pass of the loop ends.
pub data Stage : Type 0 where
  again breaks : Stage
  escapes : Escape → Stage

pub data Ran : Type 0 where
  output : Text → Ran
  escaped : Escape → Ran

-- child.before + child.after, or child.before: nothing where None is added to a text.
abbrev pub shown : Option Text → Slot Text → Option (Option Text)
shown (some b) (value a) = some (some (b ++ a))
shown none (value a) = none
shown before nothing = some before
shown before type_eof = some before
shown before type_timeout = some before

abbrev pub glue : Option Text → Option Text → Option Text
glue (some s) (some t) = some (s ++ t)
glue (some s) none = none
glue none o = none

-- ''.join(child_result_list)
abbrev pub joined : List (Option Text) → Option Text
joined [] = some []
joined (o ∷ l) = glue o (joined l)

abbrev pub joined_output : Option Text → Ran
joined_output none = escaped bad_type
joined_output (some t) = output t

abbrev pub element {ℓ} : {A : Type ℓ} → ℕ → List A → Option A
element n [] = none
element zero (a ∷ l) = some a
element (suc n) (a ∷ l) = element n l

module _ {W M : Type 0} where
  abbrev pub append_output : Option Text → Running W M → Running W M
  append_output o r = record r { child_result_list = r.child_result_list ++ (o ∷ []) }

  -- child_result_list = [], event_count = 0
  abbrev pub start_run : Spawn M → Sender → W → List Round → Running W M
  start_run child sender world rounds = record {
    child = child;
    sender = sender;
    world = world;
    rounds = rounds;
    child_result_list = [];
    event_count = 0;
  }

  -- except TIMEOUT, except EOF
  abbrev pub catch : Exception → Running W M → Stage × Running W M
  catch timed_out r = (breaks, append_output r.child.before r)
  catch end_of_file r = (breaks, append_output r.child.before r)
  catch other_error r = (escapes (uncaught other_error), r)

  -- event_count = event_count + 1
  abbrev pub counted : Running W M → Stage × Running W M
  counted r = (again, record r { event_count = r.event_count + 1 })

module _ {R W M : Type 0} (re : Re R M) (ignorecase : Bool) (terminal : Terminal W)
    (linesep : Text) where
  abbrev pub send_text : Text → Running W M → Running W M
  unfolding send
  send_text t r =
      let (c, (sender, world)) = send terminal linesep t (r.sender, r.world) in
      record r { sender = sender; world = world }

  abbrev pub react : Reaction × Running W M → Stage × Running W M
  react (sends t, r) = counted (send_text t r)
  react (stops, r) = (breaks, r)
  react (goes_on, r) = counted r
  react (throws e, r) = catch e r

  abbrev pub respond : Option (Response W M) → Running W M → Stage × Running W M
  respond (some (reply t)) r = counted (send_text t r)
  respond (some (callback f)) r = react (f r)
  respond (some other_response) r = (escapes bad_type, r)
  respond none r = (escapes bad_type, r)

  abbrev pub note_output :
      Option (Option Text) → Option (Response W M) → Running W M → Stage × Running W M
  note_output none response r = (escapes bad_type, r)
  note_output (some o) response r = respond response (append_output o r)

  -- What a call of `expect` leads to.
  abbrev pub take_event :
      List (Response W M) → Running W M → Outcome × Spawn M → Stage × Running W M
  take_event responses r (returned index, s) =
      note_output (shown s.before s.after) (element index responses) (record r { child = s })
  take_event responses r (raised e, s) = catch e (record r { child = s })
  take_event responses r (waiting, s) = (escapes still_waits, r)

  abbrev pub take_compiled :
      List (Response W M) → Running W M → Compiled (Outcome × Spawn M) → Stage × Running W M
  take_compiled responses r (compiles result) = take_event responses r result
  take_compiled responses r type_error = (escapes bad_type, r)
  take_compiled responses r regex_error = (escapes bad_regex, r)

  -- The rounds that the call of `expect` leaves.
  abbrev pub expect_left : Compiled (List (Item R)) → Spawn M → ℤ → List Round → List Round
  expect_left (compiles items) self now rounds =
      unread (searcher_re re items) self (some default_timeout) none now rounds
  expect_left type_error self now rounds = rounds
  expect_left regex_error self now rounds = rounds

  -- A pass of the loop.
  unfoldable pub pass : Patterns R → List (Response W M) → ℤ → Running W M → Stage × Running W M
  unfolding expect compile_pattern_list
  pass keys responses now r =
      take_compiled responses
        (record r {
          rounds = expect_left (compile_pattern_list re ignorecase keys) r.child now r.rounds;
        })
        (expect re ignorecase keys r.child (some default_timeout) none now r.rounds)

  abbrev pub next_stage : Stage × Running W M → Ran × Running W M → Ran × Running W M
  next_stage (again, r) rest = rest
  next_stage (breaks, r) rest = (joined_output (joined r.child_result_list), r)
  next_stage (escapes e, r) rest = (escaped e, r)

  -- The clock at the start of each call of `expect` is an argument; where these run out, the loop still
  -- waits.
  unfoldable pub event_loop :
      Patterns R → List (Response W M) → List ℤ → Running W M → Ran × Running W M
  unfolding pass
  event_loop keys responses [] r = (escaped still_waits, r)
  event_loop keys responses (now ∷ starts) r =
      let s = pass keys responses now r in next_stage s (event_loop keys responses starts s.1)

  abbrev pub event_patterns : Option (List (Pattern R × Response W M)) → Patterns R
  event_patterns none = no_patterns
  event_patterns (some events) = several (map (λ e. e.0) events)

  abbrev pub event_responses : Option (List (Pattern R × Response W M)) → List (Response W M)
  event_responses none = []
  event_responses (some events) = map (λ e. e.1) events

  -- The loop of `run`. The events are in the order of the dictionary.
  unfoldable pub run_events :
      Option (List (Pattern R × Response W M)) → List ℤ → Running W M → Ran × Running W M
  unfolding event_loop
  run_events events starts r = event_loop (event_patterns events) (event_responses events) starts r

-- The result: a text, with the exit status if it is asked for; or `close` fails.
pub data RunResult : Type 0 where
  text_only : Text → RunResult
  with_status : Text → Option ℕ → RunResult
  run_escapes : Escape → RunResult
  close_fails : Failure → RunResult

module _ {W : Type 0} where
  abbrev pub report_status : Text → Reply Bool × (Process × W) → RunResult × (Process × W)
  report_status t (done b, (p, w)) = (with_status t p.exitstatus, (p, w))
  report_status t (fails e, s) = (close_fails e, s)

  -- if withexitstatus: ...
  unfoldable pub finish_run : Os W → Bool → Ran → Process × W → RunResult × (Process × W)
  unfolding close
  finish_run os withexitstatus (escaped e) s = (run_escapes e, s)
  finish_run os false (output t) s = (text_only t, s)
  finish_run os true (output t) s = report_status t (close os true s)

module _ {R W M : Type 0} (re : Re R M) (ignorecase : Bool) (terminal : Terminal W) (linesep : Text)
    (os : Os W) where
  -- The child's process is as the loop leaves it.
  unfoldable pub run_child :
      Bool
      → Option (List (Pattern R × Response W M))
      → List ℤ
      → Process
      → Running W M
      → RunResult × (Process × W)
  unfolding run_events finish_run
  run_child withexitstatus events starts p r =
      let (ran, last) = run_events re ignorecase terminal linesep events starts r in
      finish_run os withexitstatus ran (p, last.world)
