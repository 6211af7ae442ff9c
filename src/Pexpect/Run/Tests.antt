-- ===== src/Pexpect/Run/Tests.antt =====
-- `run` at concrete inputs.
use cush.Prelude.{
  ℕ, ◌+◌, ◌≡◌, refl, inl, inr, Bool, true, false, not, Option, none, some, List, [], ◌∷◌, ◌==◌,
  arith, ltb, length, if◌then◌else◌, Bool-cases,
}
use cush.Prelude.Int.{ℤ, pos}
use cush.Prelude.Text.{Text, codes, text_eq}
use cush.Pexpect.Searcher.{init, item}
use cush.Pexpect.Expect.{Spawn, chunk, end_of_file, failed, nothing}
use cush.Pexpect.Expect.Feed.{feed}
use cush.Pexpect.Pattern.{Pattern, Re, compile_pattern_list, search_re, source, timeout_type}
use cush.Pexpect.Expect.Story.{unread}
use cush.Pexpect.Pattern.Earliest.{MatchesWithin}
use cush.Pexpect.Sending.{Sender, Terminal}
use cush.Pexpect.Process.{Os, Process, changed, unchanged}
use cush.Pexpect.Process.Told.{IsClassified}
use cush.Pexpect.Run.{
  Response, Running, callback, goes_on, output, reply, run_child, run_events, send_text, start_run,
  with_status,
}
use cush.Pexpect.Run.Output.{run_events-output}
use cush.Pexpect.Run.Doubled.{run_events-doubled}
use cush.Pexpect.Run.Waits.{with_timeout}
use cush.Pexpect.Run.Status.{Tells, run_child-Tells}

-- The only pattern that compiles is the dot, which matches the next character, whatever it is.
abbrev dot_only : Re (Unit {0}) ℕ
dot_only = record {
  compile = λ ignorecase p. if text_eq p (codes ".") then some tt else none;
  search = λ r buffer from. if ltb from (length buffer) then some from else none;
  start = λ m. m;
  end = λ m. m + 1;
}

dot_only-MatchesWithin : MatchesWithin dot_only
dot_only-MatchesWithin r buffer from = elim (Bool-cases (ltb from (length buffer))) [
  | inl e ↦ rw e (ground arith, (ground arith, ground arith))
  | inr e ↦ rw e tt
]

-- A terminal that takes all that is written; the world tells whether the child is alive.
abbrev terminal : Terminal Bool
terminal = record { write = λ s alive. (length s, alive); vintr = none; veof = none }

abbrev quiet_sender : Sender
quiet_sender = record { logfile = none; logfile_send = some [] }

abbrev object : Spawn ℕ
object = record {
  timeout = none;
  searchwindowsize = none;
  buffer = [];
  before = none;
  after = nothing;
  match = nothing;
  match_index = none;
}

abbrev answer : Response Bool ℕ
answer = reply (codes "y")

abbrev events : List (Pattern (Unit {0}) × Response Bool ℕ)
events = (source (codes "."), answer) ∷ []

abbrev chunks : List (Option Text × ℤ)
chunks = (some (codes "o"), pos 1) ∷ (some (codes "k"), pos 2) ∷ (none, pos 3) ∷ []

abbrev started : Running Bool ℕ
started = start_run object quiet_sender true (feed chunks (pos 4 ∷ []))

-- Each of the two characters is answered.
test_run_events :
    (let last =
        (run_events dot_only false terminal []
          (some events)
          (pos 0 ∷ pos 1 ∷ pos 2 ∷ [])
          started).1 in
      (last.sender.logfile_send ≡ some (codes "yy")) × (last.event_count ≡ 2))
unfolding run_events search_re init send_text unread
test_run_events = (refl, refl)

run_events-output_example :
    (run_events dot_only false terminal [] (some events) (pos 0 ∷ pos 1 ∷ pos 2 ∷ []) started).0
    ≡ output (codes "ok")
unfolding compile_pattern_list init
run_events-output_example =
    run_events-output dot_only false terminal [] dot_only-MatchesWithin events (item tt ∷ [])
      (pos 0 ∷ pos 1 ∷ pos 2 ∷ []) object quiet_sender true chunks (pos 4) [] refl (tt, tt) refl
      (λ b from m e. omega arith, tt) refl (omega arith)

-- A callback that sends nothing at every timeout.
abbrev tick_over : Response Bool ℕ
tick_over = callback (λ r. (goes_on, r))

run_events-doubled_example :
    (run_events dot_only false terminal []
      (some ((timeout_type, tick_over) ∷ []))
      (pos 0 ∷ pos 10 ∷ [])
      (start_run (with_timeout 5 object) quiet_sender true (
        record { read = chunk (codes "a"); now = pos 10 }
        ∷ record { read = chunk (codes "b"); now = pos 11 }
        ∷ record { read = failed end_of_file; now = pos 12 }
        ∷ []))).0
    ≡ output (codes "aab")
run_events-doubled_example =
    run_events-doubled dot_only false terminal [] tick_over (λ r. (refl, (refl, refl))) 5 object
      quiet_sender true (codes "a") (codes "b") (pos 0) (pos 10) (pos 10) (pos 11) (pos 12) refl
      refl

-- The status 0 is that of an exit, any other that of a signal.
abbrev system : Os Bool
system = record {
  waitpid = λ blocking alive. if alive then (unchanged, alive) else (changed 0, alive);
  wifexited = λ status. status == 0;
  wifsignaled = λ status. not (status == 0);
  wifstopped = λ status. false;
  wexitstatus = λ status. 7;
  wtermsig = λ status. status;
  kill = λ sig alive. (true, false);
  sleep = λ alive. alive;
  select = λ timeout alive. (alive, alive);
  read = λ size alive. (some (codes "$ "), alive);
  close_fd = λ fd alive. (true, alive);
}

system-IsClassified : IsClassified system
system-IsClassified status = elim (Bool-cases (status == 0)) [
  | inl e ↦ inl e
  | inr e ↦ inr (inl (rw e refl))
]

abbrev process : Process
process = record {
  terminated = false;
  exitstatus = none;
  signalstatus = none;
  status = none;
  flag_eof = true;
  closed = false;
  child_fd = pos 3;
  irix_hack = false;
  read_timeout = some (pos 30000);
  drain = record { drainpty = true; running = true; keep_reading = true; read_queue = [] };
  logfile = none;
  logfile_read = none;
}

test_run_child :
    (run_child dot_only false terminal [] system true
      (some events)
      (pos 0 ∷ pos 1 ∷ pos 2 ∷ [])
      process
      started).0
    ≡ with_status (codes "ok") (some 7)
unfolding run_child search_re init send_text unread
test_run_child = refl

run_child-Tells_example :
    Tells system
      (run_events dot_only false terminal [] (some events) (pos 0 ∷ pos 1 ∷ pos 2 ∷ []) started).0
      (run_child dot_only false terminal [] system true
        (some events)
        (pos 0 ∷ pos 1 ∷ pos 2 ∷ [])
        process
        started)
run_child-Tells_example =
    run_child-Tells system dot_only false terminal [] (some events) (pos 0 ∷ pos 1 ∷ pos 2 ∷ [])
      process started system-IsClassified refl refl
