-- ===== src/Pexpect/Process.antt =====
-- pexpect-dpty/pexpect.py: the life of the child process of a `spawn`. The operations of the system are
-- a parameter; an operation takes and returns the object and the state of the world.
pub mod Terminal
pub mod Told
pub mod Reported
pub mod Waits
pub mod Invariant
mod Tests
use cush.Prelude.{Bool, true, false, not, ℕ, Option, none, some, List, [], ◌∷◌, ◌++◌, if◌then◌else◌}
use cush.Prelude.Int.{ℤ, negsuc, pos}
use cush.Prelude.Text.{Text}
use cush.Pexpect.Drain.{Shared}

-- The signals that `terminate` sends.
pub data Signal : Type 0 where
  sighup sigcont sigint sigkill : Signal

-- What `os.waitpid` gives: ECHILD, another OSError, the process id 0, or a status.
pub data Waited : Type 0 where
  no_child wait_error unchanged : Waited
  changed : ℕ → Waited

-- What the object uses of `os`, `select` and `time`. `waitpid` is told whether to block; `kill` and
-- `close_fd` tell whether they raised no OSError; `select` tells whether the terminal can be read;
-- `read` returns nothing where it raised an OSError.
pub record Os (W : Type 0) : Type 0 where
  pub waitpid : Bool → W → Waited × W
  pub wifexited : ℕ → Bool
  pub wifsignaled : ℕ → Bool
  pub wifstopped : ℕ → Bool
  pub wexitstatus : ℕ → ℕ
  pub wtermsig : ℕ → ℕ
  pub kill : Signal → W → Bool × W
  pub sleep : W → W
  pub select : Option ℤ → W → Bool × W
  pub read : ℕ → W → Option Text × W
  pub close_fd : ℤ → W → Bool × W

-- The attributes of `spawn` that tell of the child and of the terminal. A log is what was written to
-- it.
pub record Process : Type 0 where
  pub terminated : Bool
  pub exitstatus : Option ℕ
  pub signalstatus : Option ℕ
  pub status : Option ℕ
  pub flag_eof : Bool
  pub closed : Bool
  pub child_fd : ℤ
  pub irix_hack : Bool
  pub read_timeout : Option ℤ
  pub drain : Shared
  pub logfile : Option Text
  pub logfile_read : Option Text

pub data Failure : Type 0 where
  pexpect_error os_error value_error eof_error timeout_error : Failure

pub data Reply (A : Type 0) : Type 0 where
  done : A → Reply A
  fails : Failure → Reply A

-- An operation on the object, in a world.
abbrev pub Action : Type 0 → Type 0 → Type 0
Action W A = Process × W → Reply A × (Process × W)

module _ {W : Type 0} where
  abbrev pub pure : {A : Type 0} → A → Action W A
  pure a s = (done a, s)

  abbrev pub fail : {A : Type 0} → Failure → Action W A
  fail e s = (fails e, s)

  -- What follows an operation, where it does not raise.
  abbrev pub follow :
      {A B : Type 0} → Reply A × (Process × W) → (A → Action W B) → Reply B × (Process × W)
  follow (done a, s) f = f a s
  follow (fails e, s) f = (fails e, s)

  infixl 5 ◌>>=◌
  abbrev pub ◌>>=◌ : {A B : Type 0} → Action W A → (A → Action W B) → Action W B
  (m >>= f) s = follow (m s) f

  -- try: ... except OSError: ...
  abbrev pub on_os_error :
      {A : Type 0} → Reply A × (Process × W) → Action W A → Reply A × (Process × W)
  on_os_error (fails os_error, s) handler = handler s
  on_os_error r handler = r

  module _ (os : Os W) where
    -- The end of `isalive`, on the status of the child.
    abbrev pub exited : ℕ → Process → Process
    exited status p = record p {
      status = some status;
      exitstatus = some (os.wexitstatus status);
      signalstatus = none;
      terminated = true;
    }

    abbrev pub signaled : ℕ → Process → Process
    signaled status p = record p {
      status = some status;
      exitstatus = none;
      signalstatus = some (os.wtermsig status);
      terminated = true;
    }

    abbrev pub note_status : ℕ → Action W Bool
    note_status status (p, w) =
        if os.wifexited status
        then (done false, (exited status p, w))
        else if os.wifsignaled status
        then (done false, (signaled status p, w))
        else if os.wifstopped status
        then (fails pexpect_error, (p, w))
        else (done false, (p, w))

    -- What `isalive` makes of the second `waitpid`, and of the first.
    abbrev pub second_wait : Process → Waited × W → Reply Bool × (Process × W)
    second_wait p (no_child, w) = (fails pexpect_error, (p, w))
    second_wait p (wait_error, w) = (fails os_error, (p, w))
    second_wait p (unchanged, w) = (done true, (p, w))
    second_wait p (changed status, w) = note_status status (p, w)

    abbrev pub first_wait : Process → Waited × W → Reply Bool × (Process × W)
    first_wait p (no_child, w) = (fails pexpect_error, (p, w))
    first_wait p (wait_error, w) = (fails os_error, (p, w))
    first_wait p (unchanged, w) = second_wait p (os.waitpid p.flag_eof w)
    first_wait p (changed status, w) = note_status status (p, w)

    -- It blocks only behind an end of file.
    unfoldable pub isalive : Action W Bool
    isalive (p, w) =
        if p.terminated then (done false, (p, w)) else first_wait p (os.waitpid p.flag_eof w)

    -- os.kill(self.pid, sig)
    abbrev pub sent : Process → Bool × W → Reply Bool × (Process × W)
    sent p (true, w) = (done true, (p, w))
    sent p (false, w) = (fails os_error, (p, w))

    abbrev pub send_signal : Signal → Action W Bool
    send_signal sig (p, w) = sent p (os.kill sig w)

    unfoldable pub kill_child : Signal → Action W Bool
    unfolding isalive
    kill_child sig = do alive ← isalive; if alive then send_signal sig else pure false

    abbrev pub delay : Action W Bool
    delay (p, w) = (done true, (p, os.sleep w))

    -- One step of the ladder: the signal, the delay, and a look at the child.
    abbrev pub try_signal : Signal → Action W Bool → Action W Bool
    try_signal sig next = do
      _ ← kill_child sig
      _ ← delay
      alive ← isalive
      if not alive then pure true else next

    abbrev pub ladder : Bool → Action W Bool
    ladder force = try_signal sighup (
        try_signal sigcont
          (try_signal sigint (if force then try_signal sigkill (pure false) else pure false)))

    abbrev pub last_look : Action W Bool
    last_look = do _ ← delay; alive ← isalive; pure (not alive)

    abbrev pub guarded_ladder : Bool → Action W Bool
    guarded_ladder force s = on_os_error (ladder force s) last_look

    unfoldable pub terminate : Bool → Action W Bool
    unfolding isalive kill_child
    terminate force = do alive ← isalive; if not alive then pure true else guarded_ladder force

    -- The status that the blocking `waitpid` of `wait` gives: the exit status is set before the tests.
    abbrev pub wait_status : ℕ → Process → Reply (Option ℕ) × Process
    wait_status status p =
        let q = record p { exitstatus = some (os.wexitstatus status) } in
        if os.wifexited status
        then (done (some (os.wexitstatus status)), exited status q)
        else if os.wifsignaled status
        then (done none, signaled status q)
        else if os.wifstopped status
        then (fails pexpect_error, q)
        else (done (some (os.wexitstatus status)), q)

    -- A blocking `waitpid` does not give the process id 0.
    abbrev pub wait_answer : Process → Waited × W → Reply (Option ℕ) × (Process × W)
    wait_answer p (changed status, w) = ((wait_status status p).0, ((wait_status status p).1, w))
    wait_answer p (_, w) = (fails os_error, (p, w))

    abbrev pub block : Action W (Option ℕ)
    block (p, w) = wait_answer p (os.waitpid true w)

    unfoldable pub wait : Action W (Option ℕ)
    unfolding isalive
    wait = do alive ← isalive; if alive then block else fail pexpect_error
