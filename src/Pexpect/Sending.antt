-- ===== src/Pexpect/Sending.antt =====
-- pexpect-dpty/pexpect.py: `send` and the operations that send through it.
pub mod Control
mod Tests
use cush.Prelude.{
  ℕ, ◌+◌, ◌-◌, Bool, true, false, ◌&&◌, Option, none, some, List, [], ◌∷◌, ◌++◌, leb, ◌==◌,
  if◌then◌else◌,
}
use cush.Prelude.Text.{Text}

-- The attributes that sending reads and writes. A log is what was written to it.
pub record Sender : Type 0 where
  pub logfile : Option Text
  pub logfile_send : Option Text

-- os.write on the terminal: how many bytes it took. `vintr` and `veof` are the control characters of
-- the terminal, where `termios` knows them.
pub record Terminal (W : Type 0) : Type 0 where
  pub write : Text → W → ℕ × W
  pub vintr : Option (W → ℕ)
  pub veof : Option (W → ℕ)

abbrev pub write_log : Text → Option Text → Option Text
write_log s none = none
write_log s (some l) = some (l ++ s)

-- char.lower() on the code of a character
abbrev pub lower : ℕ → ℕ
lower c = if leb 65 c && leb c 90 then c + 32 else c

abbrev pub lookup_code : List (ℕ × ℕ) → ℕ → Option ℕ
lookup_code [] c = none
lookup_code ((k, v) ∷ d) c = if k == c then some v else lookup_code d c

-- The dictionary of `sendcontrol`.
abbrev pub control_codes : List (ℕ × ℕ)
control_codes =
    (b'@', 0)
    ∷ (b'`', 0)
    ∷ (b'[', 27)
    ∷ (b'{', 27)
    ∷ (b'\\', 28)
    ∷ (b'|', 28)
    ∷ (b']', 29)
    ∷ (b'}', 29)
    ∷ (b'^', 30)
    ∷ (b'~', 30)
    ∷ (b'_', 31)
    ∷ (b'?', 127)
    ∷ []

unfoldable pub control_code : ℕ → Option ℕ
control_code char =
    let a = lower char in
    if leb 97 a && leb a 122 then some (a - 97 + 1) else lookup_code control_codes a

module _ {W : Type 0} (terminal : Terminal W) (linesep : Text) where
  unfoldable pub send : Text → Sender × W → ℕ × (Sender × W)
  send s (self, w) =
      let (c, w') = terminal.write s w in
      (
        c,
        (
          record {
            logfile = write_log s self.logfile;
            logfile_send = write_log s self.logfile_send;
          },
          w',
        ),
      )

  unfoldable pub sendline : Text → Sender × W → ℕ × (Sender × W)
  unfolding send
  sendline s st = let (n, st') = send s st in let (m, st'') = send linesep st' in (n + m, st'')

  unfoldable pub writelines : List Text → Sender × W → Sender × W
  unfolding send
  writelines [] st = st
  writelines (s ∷ sequence) st = writelines sequence (send s st).1

  abbrev pub send_code : Option ℕ → Sender × W → ℕ × (Sender × W)
  send_code none st = (0, st)
  send_code (some a) st = send (a ∷ []) st

  unfoldable pub sendcontrol : ℕ → Sender × W → ℕ × (Sender × W)
  unfolding send control_code
  sendcontrol char = send_code (control_code char)

  abbrev pub char_or : ℕ → Option (W → ℕ) → W → ℕ
  char_or default none w = default
  char_or default (some read) w = read w

  unfoldable pub sendeof : Sender × W → Sender × W
  unfolding send
  sendeof (self, w) = (send (char_or 4 terminal.veof w ∷ []) (self, w)).1

  unfoldable pub sendintr : Sender × W → Sender × W
  unfolding send
  sendintr (self, w) = (send (char_or 3 terminal.vintr w ∷ []) (self, w)).1
