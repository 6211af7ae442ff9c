-- ===== src/Pexpect/Process/Tests.antt =====
-- The life of a child process at concrete inputs: a child that ends at SIGINT.
use cush.Prelude.{
  ◌≡◌, refl, inl, inr, Bool, true, false, not, none, some, List, [], ◌∷◌, ◌==◌, if◌then◌else◌,
  Bool-cases,
}
use cush.Prelude.Int.{pos}
use cush.Prelude.Text.{codes}
use cush.Pexpect.Process.{
  Os, Process, Signal, changed, done, sighup, sigint, sigkill, terminate, unchanged,
}
use cush.Pexpect.Process.Terminal.{close}
use cush.Pexpect.Process.Told.{Ended, IsClassified, Post, Released, close-Released, terminate-Ended}
use cush.Pexpect.Process.Reported.{IsReported}
use cush.Pexpect.Process.Invariant.{
  Operation, ask_alive, close_with, kill_with, perform_all, perform_all-IsReported, read_some,
  terminate_with, wait_for,
}

abbrev ends_at : Signal → Bool → Bool
ends_at sigint alive = false
ends_at sigkill alive = false
ends_at _ alive = alive

-- The world tells whether the child is alive; the status 0 is that of an exit, any other that of a
-- signal.
abbrev system : Os Bool
system = record {
  waitpid = λ blocking alive. if alive then (unchanged, alive) else (changed 2, alive);
  wifexited = λ status. status == 0;
  wifsignaled = λ status. not (status == 0);
  wifstopped = λ status. false;
  wexitstatus = λ status. 0;
  wtermsig = λ status. status;
  kill = λ sig alive. (true, ends_at sig alive);
  sleep = λ alive. alive;
  select = λ timeout alive. (alive, alive);
  read = λ size alive. (some (codes "$ "), alive);
  close_fd = λ fd alive. (true, alive);
}

abbrev child : Process
child = record {
  terminated = false;
  exitstatus = none;
  signalstatus = none;
  status = none;
  flag_eof = false;
  closed = false;
  child_fd = pos 3;
  irix_hack = false;
  read_timeout = some (pos 30000);
  drain = record { drainpty = true; running = true; keep_reading = true; read_queue = [] };
  logfile = none;
  logfile_read = none;
}

system-IsClassified : IsClassified system
system-IsClassified status = elim (Bool-cases (status == 0)) [
  | inl e ↦ inl e
  | inr e ↦ inr (inl (rw e refl))
]

test_terminate : terminate system false (child, true) ≡ (
  done true,
  (record child { terminated = true; status = some 2; signalstatus = some 2 }, false),
)
unfolding terminate
test_terminate = refl

terminate-Ended_example : Post Ended (terminate system false (child, true))
terminate-Ended_example = terminate-Ended system system-IsClassified false (child, true)

close-Released_example : Post Released (close system true (child, true))
close-Released_example = close-Released system system-IsClassified true (child, true) refl

abbrev calls : List Operation
calls =
    ask_alive
    ∷ read_some 100 (some (pos 10))
    ∷ kill_with sighup
    ∷ terminate_with false
    ∷ wait_for
    ∷ close_with true
    ∷ []

perform_all-IsReported_example : IsReported system (perform_all system calls (child, true)).0
perform_all-IsReported_example = perform_all-IsReported system calls child true (inl refl)
