-- ===== src/Pexpect/Pty.antt =====
-- pexpect-dpty/pexpect.py: `__fork_pty` and `__pty_make_controlling_tty`. The functions of `os` are a parameter.
pub mod Descriptors
pub mod Forked
mod Tests
use cush.Prelude.{ℕ, Bool, true, false, ◌||◌, Option, none, some, if◌then◌else◌}
use cush.Prelude.Int.{ℤ, is_negative, pos, ◌==ℤ◌, ◌-ℤ◌, is_positive}
use cush.Prelude.Text.{Text, codes}
use cush.Pexpect.Process.{Failure, Reply, done, fails, os_error, pexpect_error}

-- The flags of `os.open`: O_RDWR | O_NOCTTY, O_RDWR and O_WRONLY.
pub data Flags : Type 0 where
  rdwr_noctty rdwr wronly : Flags

-- A function gives nothing where it raises an OSError.
pub record PtyOs (W : Type 0) : Type 0 where
  pub openpty : W → Option (ℤ × ℤ) × W
  pub fork : W → Option ℤ × W
  pub close : ℤ → W → Option (Unit {0}) × W
  pub dup2 : ℤ → ℤ → W → Option (Unit {0}) × W
  pub ttyname : ℤ → W → Option Text × W
  pub open_file : Text → Flags → W → Option ℤ × W
  pub setsid : W → Option (Unit {0}) × W

abbrev pub dev_tty : Text
dev_tty = codes "/dev/tty"

abbrev pub Task : Type 0 → Type 0 → Type 0
Task W A = W → Reply A × W

module _ {W : Type 0} where
  abbrev pub pure : {A : Type 0} → A → Task W A
  pure a w = (done a, w)

  abbrev pub fail : {A : Type 0} → Failure → Task W A
  fail e w = (fails e, w)

  abbrev pub follow : {A B : Type 0} → Reply A × W → (A → Task W B) → Reply B × W
  follow (done a, w) f = f a w
  follow (fails e, w) f = (fails e, w)

  infixl 5 ◌>>=◌ ◌>>◌
  abbrev pub ◌>>=◌ : {A B : Type 0} → Task W A → (A → Task W B) → Task W B
  (m >>= f) w = follow (m w) f

  abbrev pub ◌>>◌ : {A B : Type 0} → Task W A → Task W B → Task W B
  (m >> k) w = follow (m w) (λ a. k)

  abbrev pub raise_none : {A : Type 0} → Option A × W → Reply A × W
  raise_none (none, w) = (fails os_error, w)
  raise_none (some a, w) = (done a, w)

  -- A call of a function of `os`.
  abbrev pub call : {A : Type 0} → (W → Option A × W) → Task W A
  call f w = raise_none (f w)

  -- except: pass
  abbrev pub pass_over : Reply (Unit {0}) × W → Reply (Unit {0}) × W
  pass_over (r, w) = (done tt, w)

  -- if fd >= 0: ..., else: ...
  abbrev pub on_fd : ℤ → Task W (Unit {0}) → Task W (Unit {0}) → Task W (Unit {0})
  on_fd fd opened other w = if is_negative fd then other w else opened w

  module _ (os : PtyOs W) where
    -- The block that verifies that there is no controlling terminal.
    abbrev pub verify_disconnected : Task W (Unit {0})
    verify_disconnected = do
      fd ← call (os.open_file dev_tty rdwr_noctty)
      on_fd fd (call (os.close fd) >> fail pexpect_error) (pure tt)

    unfoldable pub pty_make_controlling_tty : ℤ → Task W (Unit {0})
    pty_make_controlling_tty tty_fd = do
      child_name ← call (os.ttyname tty_fd)
      (do fd ← call (os.open_file dev_tty rdwr_noctty); on_fd fd (call (os.close fd)) (pure tt))
      call os.setsid
      (λ w. pass_over (verify_disconnected w))
      (do
        fd ← call (os.open_file child_name rdwr)
        on_fd fd (call (os.close fd)) (fail pexpect_error))
      (do
        fd ← call (os.open_file dev_tty wronly)
        on_fd fd (call (os.close fd)) (fail pexpect_error))

    -- The end of the child: the standard descriptors.
    abbrev pub dup_all : ℤ → Task W (Unit {0})
    dup_all child_fd = do
      call (os.dup2 child_fd (pos 0))
      call (os.dup2 child_fd (pos 1))
      call (os.dup2 child_fd (pos 2))
      (λ w. if is_positive (child_fd -ℤ pos 2) then call (os.close child_fd) w else (done tt, w))

    abbrev pub child_part : ℤ → ℤ → Task W (Unit {0})
    child_part parent_fd child_fd = do
      call (os.close parent_fd)
      pty_make_controlling_tty child_fd
      dup_all child_fd

    -- What follows the fork, in the parent and in the child.
    abbrev pub behind_fork : ℤ → ℤ → ℤ → Task W (ℤ × ℤ)
    behind_fork parent_fd child_fd pid w =
        if is_negative pid
        then (fails pexpect_error, w)
        else if pid ==ℤ pos 0
        then (child_part parent_fd child_fd >> pure (pid, parent_fd)) w
        else (call (os.close child_fd) >> pure (pid, parent_fd)) w

    abbrev pub behind_open : ℤ × ℤ → Task W (ℤ × ℤ)
    behind_open (parent_fd, child_fd) w =
        if is_negative parent_fd || is_negative child_fd
        then (fails pexpect_error, w)
        else (call os.fork >>= behind_fork parent_fd child_fd) w

    unfoldable pub fork_pty : Task W (ℤ × ℤ)
    unfolding pty_make_controlling_tty
    fork_pty = call os.openpty >>= behind_open
