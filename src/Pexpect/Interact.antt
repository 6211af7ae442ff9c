-- ===== src/Pexpect/Interact.antt =====
-- pexpect-dpty/pexpect.py: `interact`, `__interact_copy` and `__interact_writen`. What the terminals give
-- and take, pass by pass, is an argument.
pub mod Last
pub mod Written
pub mod Relay
mod Tests
use cush.Prelude.{
  ℕ, suc, zero, Bool, true, false, Option, none, some, List, [], ◌∷◌, ◌++◌, take, drop,
  if◌then◌else◌,
}
use cush.Prelude.Text.{Text, starts_with}
use cush.Pexpect.Sending.{write_log}

-- data.rfind(sub)
abbrev pub rfind_here : Bool → Option ℕ → Option ℕ
rfind_here b (some n) = some (suc n)
rfind_here true none = some 0
rfind_here false none = none

unfoldable pub rfind : Text → Text → Option ℕ
rfind sub [] = if starts_with sub [] then some 0 else none
rfind sub (c ∷ t) = rfind_here (starts_with sub (c ∷ t)) (rfind sub t)

-- A pass of `__interact_writen`: the child is no longer alive, `os.write` takes some bytes, or it or
-- `isalive` raises.
pub data Attempt : Type 0 where
  dead : Attempt
  took : ℕ → Attempt
  write_raises : Attempt

pub data Finish : Type 0 where
  finished raised blocked : Finish

abbrev pub more_sent : Text → Text × Finish → Text × Finish
more_sent s (t, f) = (s ++ t, f)

-- What is written, and how the loop ends; where the attempts run out, the write blocks.
unfoldable pub interact_writen : Text → List Attempt → Text × Finish
interact_writen [] attempts = ([], finished)
interact_writen (c ∷ text) [] = ([], blocked)
interact_writen (c ∷ text) (dead ∷ attempts) = ([], finished)
interact_writen (c ∷ text) (write_raises ∷ attempts) = ([], raised)
interact_writen (c ∷ text) (took n ∷ attempts) =
    more_sent (take n (c ∷ text)) (interact_writen (drop n (c ∷ text)) attempts)

-- What `__interact_read` gives: the file is not among those that `__select` found readable, data, or an
-- exception (of `__select` too).
pub data Input : Type 0 where
  idle : Input
  gives : Text → Input
  read_raises : Input

-- The answer of `isalive`.
pub data Life : Type 0 where
  alive ended life_raises : Life

-- A pass of `__interact_copy`. `displayed` is how many bytes `os.write` takes for the user's terminal,
-- where it does not raise.
pub record CopyPass : Type 0 where
  pub life : Life
  pub output : Input
  pub displayed : Option ℕ
  pub input : Input
  pub attempts : List Attempt

-- What is written to the user's terminal, to the log and to the child, the buffer, and the mode of the
-- user's terminal.
pub record Console (Mode : Type 0) : Type 0 where
  pub stdout : Text
  pub logfile : Option Text
  pub sent : Text
  pub buffer : Text
  pub mode : Mode

-- How the loop ends: by the escape character, with the child, by an exception; or it goes on.
pub data CopyEnding : Type 0 where
  escape_typed child_gone raises going : CopyEnding

pub data Course : Type 0 where
  next_pass : Course
  ends : CopyEnding → Course

abbrev pub filtered : Option (Text → Text) → Text → Text
filtered none data_read = data_read
filtered (some f) data_read = f data_read

module _ {Mode : Type 0} (escape_character : Text)
    (input_filter output_filter : Option (Text → Text)) where
  -- self.logfile.write(data), os.write(self.STDOUT_FILENO, data)
  abbrev pub show : Option ℕ → Text → Console Mode → Course × Console Mode
  show (some n) s c =
      (next_pass, record c { stdout = c.stdout ++ take n s; logfile = write_log s c.logfile })
  show none s c = (ends raises, record c { logfile = write_log s c.logfile })

  -- The end of `__interact_writen`, and where the loop goes then.
  abbrev pub finish_write : Course → Text × Finish → Console Mode → Course × Console Mode
  finish_write stage (t, finished) c = (stage, record c { sent = c.sent ++ t })
  finish_write stage (t, raised) c = (ends raises, record c { sent = c.sent ++ t })
  finish_write stage (t, blocked) c = (ends going, record c { sent = c.sent ++ t })

  abbrev pub send_input : Text → Option ℕ → List Attempt → Console Mode → Course × Console Mode
  send_input s (some i) attempts c =
      finish_write (ends escape_typed) (interact_writen (take i s) attempts) c
  send_input s none attempts c = finish_write next_pass (interact_writen s attempts) c

  -- if self.STDIN_FILENO in r
  abbrev pub take_input : Input → List Attempt → Console Mode → Course × Console Mode
  take_input idle attempts c = (next_pass, c)
  take_input (gives s) attempts c =
      send_input (filtered input_filter s) (rfind escape_character (filtered input_filter s))
        attempts c
  take_input read_raises attempts c = (ends raises, c)

  abbrev pub then_input : CopyPass → Course × Console Mode → Course × Console Mode
  then_input p (next_pass, c) = take_input p.input p.attempts c
  then_input p (ends e, c) = (ends e, c)

  -- if self.child_fd in r, and what follows
  abbrev pub take_both : CopyPass → Input → Console Mode → Course × Console Mode
  take_both p idle c = take_input p.input p.attempts c
  take_both p (gives s) c = then_input p (show p.displayed (filtered output_filter s) c)
  take_both p read_raises c = (ends raises, c)

  abbrev pub live : Life → CopyPass → Console Mode → Course × Console Mode
  live alive p c = take_both p p.output c
  live ended p c = (ends child_gone, c)
  live life_raises p c = (ends raises, c)

  abbrev pub follow_course :
      Course × Console Mode → CopyEnding × Console Mode → CopyEnding × Console Mode
  follow_course (next_pass, c) rest = rest
  follow_course (ends e, c) rest = (e, c)

  unfoldable pub interact_copy : List CopyPass → Console Mode → CopyEnding × Console Mode
  interact_copy [] c = (going, c)
  interact_copy (p ∷ passes) c =
      let s = live p.life p c in follow_course s (interact_copy passes s.1)

  -- finally: tty.tcsetattr(self.STDIN_FILENO, tty.TCSAFLUSH, mode)
  abbrev pub restore : Mode → CopyEnding × Console Mode → CopyEnding × Console Mode
  restore mode (going, c) = (going, c)
  restore mode (e, c) = (e, record c { mode = mode })

  -- `setraw` is what `tty.setraw` does to the mode.
  unfoldable pub interact : (Mode → Mode) → List CopyPass → Console Mode → CopyEnding × Console Mode
  unfolding interact_copy
  interact setraw passes c = restore c.mode (
      interact_copy passes
        (record c { stdout = c.stdout ++ c.buffer; buffer = []; mode = setraw c.mode }))
