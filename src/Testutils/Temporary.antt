-- ===== src/Testutils/Temporary.antt =====
-- tests/testutils.py: `removefile` and `make_test_program`, and what the tests use of `os` and `tempfile`.
use cush.Prelude.{ℕ, Option, none, some, [], ◌++◌}
use cush.Prelude.Text.{Text, codes}
use cush.Testutils.{Tested, assertion_fails, expect_raises, other_error, still_waits, tested}
use cush.Testutils.Session.{Session, Test, pure, ◌>>=◌, ◌>>◌}

-- The number of an OSError: ENOENT, or another one.
pub data Errno : Type 0 where
  enoent other_errno : Errno

-- `unlink` gives the error, if it raises; the others give nothing where they raise. `system` runs a command.
pub record FileOs (W : Type 0) : Type 0 where
  pub unlink : Text → W → Option Errno × W
  pub mkstemp : Text → W → Option (ℕ × Text) × W
  pub close : ℕ → W → Option (Unit {0}) × W
  pub write : ℕ → Text → W → Option ℕ × W
  pub system : Text → W → W
  pub read_file : Text → W → Option Text × W

module _ {W : Type 0} where
  abbrev pub or_error : {A : Type 0} → Option A × W → Tested A × W
  or_error (none, w) = (other_error, w)
  or_error (some a, w) = (tested a, w)

  abbrev pub removed : Option Errno × W → Tested (Unit {0}) × W
  removed (none, w) = (tested tt, w)
  removed (some enoent, w) = (tested tt, w)
  removed (some other_errno, w) = (other_error, w)

  -- os.unlink, where the caller catches nothing
  abbrev pub unlinked : Option Errno × W → Tested (Unit {0}) × W
  unlinked (none, w) = (tested tt, w)
  unlinked (some e, w) = (other_error, w)

abbrev pub compile_command : Text → Text → Text → Text
compile_command cflags ofilename exefilename =
    codes "gcc " ++ cflags ++ codes " " ++ ofilename ++ codes " -o " ++ exefilename

module _ {W M : Type 0} where
  -- What is done to the world, as a part of a test.
  abbrev pub put_world : {A : Type 0} → Session W M → Tested A × W → Tested A × Session W M
  put_world s (a, w) = (a, record s { link = (s.link.0, w) })

  abbrev pub in_world : {A : Type 0} → (W → Tested A × W) → Test W M A
  in_world f s = put_world s (f (s.link.1))

  -- The result of a try block, and that of its finally block.
  abbrev pub after_finally :
      {A : Type 0} → Tested A → Tested (Unit {0}) × Session W M → Tested A × Session W M
  after_finally r (tested u, s) = (r, s)
  after_finally r (expect_raises e, s) = (expect_raises e, s)
  after_finally r (assertion_fails, s) = (assertion_fails, s)
  after_finally r (other_error, s) = (other_error, s)
  after_finally r (still_waits, s) = (still_waits, s)

  -- A test that still waits in the try block has not come to the finally block.
  abbrev pub end_try :
      {A : Type 0} → Test W M (Unit {0}) → Tested A × Session W M → Tested A × Session W M
  end_try cleanup (still_waits, s) = (still_waits, s)
  end_try cleanup (r, s) = after_finally r (cleanup s)

  -- try: body, finally: cleanup
  abbrev pub try_finally : {A : Type 0} → Test W M A → Test W M (Unit {0}) → Test W M A
  try_finally body cleanup s = end_try cleanup (body s)

  module _ (os : FileOs W) where
    unfoldable pub removefile : Text → Test W M (Unit {0})
    removefile filename = in_world (λ w. removed (os.unlink filename w))

    unfoldable pub make_test_program : Text → Text → Test W M Text
    make_test_program src cflags = do
      exe ← in_world (λ w. or_error (os.mkstemp [] w))
      in_world (λ w. or_error (os.close (exe.0) w))
      o ← in_world (λ w. or_error (os.mkstemp (codes ".c") w))
      in_world (λ w. or_error (os.write (o.0) src w))
      in_world (λ w. or_error (os.close (o.0) w))
      in_world (λ w. (tested tt, os.system (compile_command cflags (o.1) (exe.1)) w))
      in_world (λ w. unlinked (os.unlink (o.1) w))
      pure (exe.1)
