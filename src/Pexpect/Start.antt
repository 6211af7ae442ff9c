-- ===== src/Pexpect/Start.antt =====
-- pexpect-dpty/pexpect.py: the start of the child: `spawn.__init__` and `_spawn`, in the parent and in the
-- child.
pub mod Started
pub mod Commanded
mod Tests
use cush.Prelude.{
  ℕ, zero, suc, ◌-◌, ◌+◌, Bool, true, false, Option, none, some, List, [], ◌∷◌, ◌++◌, not,
}
use cush.Prelude.Int.{ℤ, negsuc, pos}
use cush.Prelude.Text.{Text}
use cush.Pexpect.CommandLine.{split_command_line}
use cush.Pexpect.Polling.{Files, which}
use cush.Pexpect.Process.{Process}

-- The arguments `command` and `args`, by their types.
pub data Command : Type 0 where
  no_command int_command : Command
  named : Text → Command

pub data Args : Type 0 where
  list : List Text → Args
  not_list : Args

-- What the constructor takes besides.
pub record Settings : Type 0 where
  pub timeout : Option ℤ
  pub logfile : Option Text
  pub cwd : Option Text
  pub env : Option (List (Text × Text))
  pub drainpty : Bool
  pub is_irix : Bool

-- The attributes that the start of the child sets.
pub record Object : Type 0 where
  pub command : Option Text
  pub args : Option (List Text)
  pub pid : Option ℕ
  pub process : Process

-- The errors of the start: an ExceptionPexpect, a TypeError, an IndexError, an AssertionError.
pub data StartError : Type 0 where
  pexpect_exception type_error index_error assertion_error : StartError

-- `pty.fork`, in the parent and in the child.
pub data Fork : Type 0 where
  fork_fails : Fork
  in_parent : ℕ → ℕ → Fork
  in_child : Fork

-- What the child calls. A call may raise.
pub data Call : Type 0 where
  set_window_size : ℕ → ℕ → Call
  close_fd : ℕ → Call
  ignore_sighup : Call
  chdir : Text → Call
  execv : Text → List Text → Call
  execvpe : Text → List Text → List (Text × Text) → Call

-- How the call of the constructor ends: the object is there, without a child or with one; it raises; or, in
-- the child, these calls follow.
pub data Start : Type 0 where
  ready : Start
  start_raises : StartError → Start
  calls : List Call → Start

-- The attributes before `_spawn`.
abbrev pub new_process : Settings → Process
new_process s = record {
  terminated = true;
  exitstatus = none;
  signalstatus = none;
  status = none;
  flag_eof = false;
  closed = true;
  child_fd = negsuc 0;
  irix_hack = s.is_irix;
  read_timeout = s.timeout;
  drain = record { drainpty = s.drainpty; running = false; keep_reading = true; read_queue = [] };
  logfile = s.logfile;
  logfile_read = none;
}

abbrev pub new_object : Settings → Object
new_object s = record { command = none; args = none; pid = none; process = new_process s }

-- for i in range (3, max_fd), from `i`, with `n` to go
abbrev pub close_from : ℕ → ℕ → List Call
close_from i zero = []
close_from i (suc n) = close_fd i ∷ close_from (i + 1) n

abbrev pub change_directory : Option Text → List Call
change_directory none = []
change_directory (some d) = chdir d ∷ []

abbrev pub execute : Option (List (Text × Text)) → Text → List Text → Call
execute none command args = execv command args
execute (some env) command args = execvpe command args env

-- The child's calls up to the one that replaces it.
unfoldable pub child_calls : ℕ → Settings → Text → List Text → List Call
child_calls max_fd s command args =
    set_window_size 24 200
    ∷ (close_from 3 (max_fd - 3)
        ++ ignore_sighup ∷ (change_directory s.cwd ++ execute s.env command args ∷ []))

-- How the child fares: its program is replaced, or an exception leaves the constructor.
pub data Fate : Type 0 where
  becomes : Text → List Text → Option (List (Text × Text)) → Fate
  child_raises : Fate
  goes_on : Fate

-- Errors of setwinsize and of close are passed over.
abbrev pub after_call : Call → Bool → Fate → Fate
after_call (set_window_size r c) raised rest = rest
after_call (close_fd i) raised rest = rest
after_call ignore_sighup true rest = child_raises
after_call ignore_sighup false rest = rest
after_call (chdir d) true rest = child_raises
after_call (chdir d) false rest = rest
after_call (execv command args) true rest = child_raises
after_call (execv command args) false rest = becomes command args none
after_call (execvpe command args env) true rest = child_raises
after_call (execvpe command args env) false rest = becomes command args (some env)

-- `raises` tells which calls raise.
unfoldable pub run_calls : (Call → Bool) → List Call → Fate
run_calls raises [] = goes_on
run_calls raises (c ∷ rest) = after_call c (raises c) (run_calls raises rest)

-- What `_spawn` does behind the fork. The child's object is left aside.
abbrev pub after_fork : ℕ → Settings → Text → List Text → Fork → Object → Start × Object
after_fork max_fd s command args fork_fails o = (start_raises pexpect_exception, o)
after_fork max_fd s command args (in_parent pid fd) o = (
  ready,
  record o {
    pid = some pid;
    process = record (o.process) { child_fd = pos fd; terminated = false; closed = false };
  },
)
after_fork max_fd s command args in_child o = (calls (child_calls max_fd s command args), o)

-- assert self.pid is None
abbrev pub fork_child : Option ℕ → ℕ → Settings → Text → List Text → Fork → Object → Start × Object
fork_child none max_fd s command args fork o = after_fork max_fd s command args fork o
fork_child (some pid) max_fd s command args fork o = (start_raises assertion_error, o)

-- self.command = command_with_path, self.args[0] = self.command
abbrev pub with_path : ℕ → Settings → Fork → List Text → Option Text → Object → Start × Object
with_path max_fd s fork rest none o = (start_raises pexpect_exception, o)
with_path max_fd s fork rest (some path) o =
    fork_child o.pid max_fd s path (path ∷ rest) fork
      (record o { command = some path; args = some (path ∷ rest) })

-- The command and the arguments.
abbrev pub words_of : Text → List Text → List Text
words_of command [] = split_command_line command
words_of command (a ∷ args) = command ∷ a ∷ args

abbrev pub find_command : Files → ℕ → Settings → Fork → List Text → Object → Start × Object
find_command files max_fd s fork [] o = (start_raises index_error, record o { args = some [] })
find_command files max_fd s fork (w ∷ rest) o =
    with_path max_fd s fork rest (which files w)
      (record o { command = some w; args = some (w ∷ rest) })

unfoldable pub spawn_child : Files → ℕ → Settings → Fork → Command → Args → Object → Start × Object
unfolding split_command_line which child_calls
spawn_child files max_fd s fork no_command args o = (ready, o)
spawn_child files max_fd s fork int_command args o = (start_raises pexpect_exception, o)
spawn_child files max_fd s fork (named command) not_list o = (start_raises type_error, o)
spawn_child files max_fd s fork (named command) (list args) o =
    find_command files max_fd s fork (words_of command args) o

-- spawn(command, args, ...)
unfoldable pub spawn : Files → ℕ → Settings → Fork → Command → Args → Start × Object
unfolding spawn_child
spawn files max_fd s fork command args = spawn_child files max_fd s fork command args (new_object s)
