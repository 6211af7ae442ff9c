-- ===== src/Testutils.antt =====
-- tests/testutils.py and src/output_spec.py: what the shell tests are written with, on top of pexpect.
pub mod Session
pub mod Order
pub mod Steps
pub mod Judged
pub mod Temporary
pub mod Leaks
pub mod Shell
pub mod Builtin
mod Tests
use cush.Prelude.{
  ℕ, Bool, true, false, Option, none, some, List, [], ◌∷◌, ◌++◌, ◌==◌, if◌then◌else◌, length,
}
use cush.Prelude.Int.{ℤ, pos}
use cush.Prelude.Text.{Text, codes, text_eq}
use cush.Pexpect.Expect.{
  Exception, Outcome, Slot, Spawn, nothing, raised, returned, type_eof, type_timeout, value,
  waiting,
}
use cush.Pexpect.Polling.{Files}
use cush.Pexpect.Process.{Process}
use cush.Pexpect.Sending.{Sender, Terminal, sendline}
use cush.Pexpect.Start.{
  Fork, Object, Settings, Start, calls, list, named, ready, spawn, start_raises,
}

-- The names that a file like `output_spec.py` defines. `logfile` tells whether there is one.
pub record OutputSpec : Type 0 where
  pub shell : Text
  pub prompt : Text
  pub bgjob_regex : Text
  pub job_status_regex : Text
  pub jobs_status_msg : List (Text × Text)
  pub builtin_commands : List (Text × Text)
  pub logfile : Bool

-- The file of the repository, with a prompt for one user.
unfoldable pub output_spec : Text → OutputSpec
output_spec user = record {
  shell = codes "./cush";
  prompt = if text_eq user (codes "gback") then codes "<[^@]*@[^>]*>\\$" else codes "cush>";
  bgjob_regex = codes "\\[(\\d+)\\] (\\d+)";
  job_status_regex = codes "\\[(\\d+)\\].?\\s+(\\S+)\\s+\\((.+?)\\)\r\n";
  jobs_status_msg = (codes "stopped", codes "Stopped") ∷ (codes "running", codes "Running") ∷ [];
  builtin_commands =
      (codes "jobs", codes "jobs")
      ∷ (codes "stop", codes "stop %s")
      ∷ (codes "kill", codes "kill %s")
      ∷ (codes "fg", codes "fg %s")
      ∷ (codes "bg", codes "bg %s")
      ∷ (codes "exit", codes "exit")
      ∷ [];
  logfile = true;
}

-- " ".join(args)
abbrev pub join_blank : List Text → Text
join_blank [] = []
join_blank (a ∷ []) = a
join_blank (a ∷ b ∷ args) = a ++ (32 ∷ join_blank (b ∷ args))

abbrev pub shell_command : OutputSpec → List Text → Text
shell_command spec args = spec.shell ++ join_blank args

-- The defaults of `spawn`; the log is the file or sys.stdout.
abbrev pub console_settings : Settings
console_settings = record {
  timeout = some (pos 30000);
  logfile = some [];
  cwd = none;
  env = none;
  drainpty = true;
  is_irix = false;
}

-- console.timeout = 2
abbrev pub set_timeout : Start × Object → Start × Object
set_timeout (ready, o) =
    (ready, record o { process = record (o.process) { read_timeout = some (pos 2000) } })
set_timeout r = r

unfoldable pub setup_tests : Files → ℕ → Fork → OutputSpec → List Text → Start × Object
unfolding spawn
setup_tests files max_fd fork spec additional_cmdline_arguments = set_timeout (
    spawn files max_fd console_settings fork
      (named (shell_command spec additional_cmdline_arguments)) (list []))

-- What a routine of the tests gives: a value, an exception of `expect`, the failure of an assertion, another
-- error; or the call still waits.
pub data Tested (A : Type 0) : Type 0 where
  tested : A → Tested A
  expect_raises : Exception → Tested A
  assertion_fails other_error still_waits : Tested A

-- assert console.expect(line) == 0
abbrev pub assert_first : {M : Type 0} → Outcome × Spawn M → Tested (Spawn M)
assert_first (returned index, s) = if index == 0 then tested s else assertion_fails
assert_first (raised e, s) = expect_raises e
assert_first (waiting, s) = still_waits

-- The groups of the match that `expect` has left.
abbrev pub match_groups : {M : Type 0} → (M → List Text) → Slot M → Tested (List Text)
match_groups groups (value m) = tested (groups m)
match_groups groups nothing = other_error
match_groups groups type_eof = other_error
match_groups groups type_timeout = other_error

-- expect_regex, on what `console.expect` does
abbrev pub expect_regex : {M : Type 0} → (M → List Text) → Outcome × Spawn M → Tested (List Text)
expect_regex groups (returned index, s) = match_groups groups s.match
expect_regex groups (raised e, s) = expect_raises e
expect_regex groups (waiting, s) = still_waits

pub record JobStatus : Type 0 where
  pub id : Text
  pub status : Text
  pub command : Text

-- The name of the message, or the message.
unfoldable pub status_name : List (Text × Text) → Text → Text
status_name [] status = status
status_name ((name, val) ∷ items) status =
    if text_eq val status then name else status_name items status

abbrev pub job_line : OutputSpec → List Text → Tested JobStatus
job_line spec (jid ∷ status ∷ cmd ∷ []) =
    tested (record { id = jid; status = status_name spec.jobs_status_msg status; command = cmd })
job_line spec _ = other_error

abbrev pub then_tested : {A B : Type 0} → Tested A → (A → Tested B) → Tested B
then_tested (tested a) f = f a
then_tested (expect_raises e) f = expect_raises e
then_tested assertion_fails f = assertion_fails
then_tested other_error f = other_error
then_tested still_waits f = still_waits

unfoldable pub parse_job_line :
    {M : Type 0} → OutputSpec → (M → List Text) → Outcome × Spawn M → Tested JobStatus
unfolding status_name
parse_job_line spec groups result = then_tested (expect_regex groups result) (job_line spec)

pub record BgStatus : Type 0 where
  pub job_id : Text
  pub pid : Text

abbrev pub bg_line : List Text → Tested BgStatus
bg_line (jid ∷ pid ∷ []) = tested (record { job_id = jid; pid = pid })
bg_line _ = other_error

-- parse_bg_status, on what `console.expect` does
unfoldable pub parse_bg_status :
    {M : Type 0} → (M → List Text) → Outcome × Spawn M → Tested BgStatus
parse_bg_status groups result = then_tested (expect_regex groups result) bg_line

-- settings_module.builtin_commands.get(command, command)
abbrev pub command_format : List (Text × Text) → Text → Text
command_format [] command = command
command_format ((name, format) ∷ items) command =
    if text_eq name command then format else command_format items command

abbrev pub put : Text → Option Text → Option Text
put s none = none
put s (some t) = some (s ++ t)

-- A conversion behind `%`: an argument, a `%`, or an error.
abbrev pub convert : ℕ → List Text → (List Text → Option Text) → Option Text
convert c [] rest = if c == b'%' then put (c ∷ []) (rest []) else none
convert c (a ∷ args) rest =
    if c == b's'
    then put a (rest args)
    else if c == b'%'
    then put (c ∷ []) (rest (a ∷ args))
    else none

-- command % tuple(args), for `%s` and `%%`: nothing where it raises.
unfoldable pub format : Text → List Text → Option Text
format [] [] = some []
format [] (a ∷ args) = none
format (c ∷ []) args = if c == b'%' then none else put (c ∷ []) (format [] args)
format (c ∷ d ∷ t) args =
    let plain = format (d ∷ t) args in
    let converted = convert d args (λ rest. format t rest) in
    if c == b'%' then converted else put (c ∷ []) plain

module _ {W : Type 0} (terminal : Terminal W) (linesep : Text) where
  abbrev pub send_formatted : Option Text → Sender × W → Tested (Sender × W)
  send_formatted none st = other_error
  send_formatted (some line) st = tested (sendline terminal linesep line st).1

  unfoldable pub run_builtin : OutputSpec → Text → List Text → Sender × W → Tested (Sender × W)
  unfolding format sendline
  run_builtin spec command args st =
      send_formatted (format (command_format spec.builtin_commands command) args) st
