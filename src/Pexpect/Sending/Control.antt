-- ===== src/Pexpect/Sending/Control.antt =====
-- What `sendcontrol` and `sendline` send.
use cush.Prelude.{
  ℕ, ◌+◌, ◌≤◌, ◌<◌, ◌≡◌, ◌⊎◌, refl, ap, ◌∙◌, inl, inr, true, false, ◌&&◌, Option, none, some, List,
  [], ◌∷◌, ◌++◌, leb, ◌==◌, arith, if◌then◌else◌, Bool-cases, append_assoc, append-nil,
}
use Prim.Native.Nat.{◌%◌}
use cush.Prelude.Text.{Text}
use cush.Pexpect.Sending.{
  Sender, Terminal, control_code, send, send_code, sendcontrol, sendline, write_log, writelines,
}

control_code-mod : (c : ℕ) → 64 ≤ c → c ≤ 126 → control_code c ≡ some (c % 32)
unfolding control_code
control_code-mod c l h = ground arith

control_code-none : (c : ℕ) → (c < 64) ⊎ (126 < c) → (c == 63) ≡ false → control_code c ≡ none
unfolding control_code
control_code-none c l h = ground arith

-- The control character of a key: the low five bits of its code, and DEL for the question mark.
unfoldable pub control_char : ℕ → Option ℕ
control_char c = if leb 64 c && leb c 126 then some (c % 32) else if c == 63 then some 127 else none

control_code-question : control_code 63 ≡ some 127
unfolding control_code
control_code-question = refl

control_code-control_char : (c : ℕ) → control_code c ≡ control_char c
unfolding control_char
control_code-control_char c = elim (Bool-cases (leb 64 c && leb c 126)) [
  | inl e ↦ rw e (control_code-mod c (ground (arith, e)) (ground (arith, e)))
  | inr e ↦ elim (Bool-cases (c == 63)) [
    | inl q ↦ rw (e, q) (question q)
    | inr q ↦ rw (e, q) (control_code-none c (ground (arith, e)) q)
  ]
]
  where
    question : (c == 63) ≡ true → control_code c ≡ some 127
    question q = let p : c ≡ 63 = ground (arith, q) in ap control_code p ∙ control_code-question

pub write_log-append :
    (s t : Text) (l : Option Text) → write_log t (write_log s l) ≡ write_log (s ++ t) l
write_log-append s t none = refl
write_log-append s t (some l) = ap some (append_assoc l s t)

module _ {W : Type 0} (terminal : Terminal W) (linesep : Text) where
  -- Every key with a control character sends it, upper or lower case alike, and any other key sends
  -- nothing and gives 0.
  pub sendcontrol-control_char :
      (c : ℕ) (st : Sender × W)
      → sendcontrol terminal linesep c st ≡ send_code terminal linesep (control_char c) st
  unfolding sendcontrol
  sendcontrol-control_char c st =
      ap (λ o. send_code terminal linesep o st) (control_code-control_char c)

  -- Two writes do what one write of both texts does.
  abbrev pub IsStream : Type 0
  IsStream =
      (s t : Text) (w : W)
      → terminal.write (s ++ t) w ≡ (
        (terminal.write s w).0 + (terminal.write t (terminal.write s w).1).0,
        (terminal.write t (terminal.write s w).1).1,
      )

  -- If two writes to the terminal do what one write of both texts does, `sendline` sends, logs and counts
  -- as `send` does with the line and its separator.
  pub sendline-send :
      (s : Text) (st : Sender × W)
      → IsStream
      → sendline terminal linesep s st ≡ send terminal linesep (s ++ linesep) st
  unfolding sendline send
  sendline-send s (self, w) stream = cc (
    stream s linesep w,
    write_log-append s linesep self.logfile,
    write_log-append s linesep self.logfile_send,
  )

  abbrev pub all_text : List Text → Text
  all_text [] = []
  all_text (s ∷ sequence) = s ++ all_text sequence

  send-append :
      (s t : Text) (st : Sender × W)
      → IsStream
      → (send terminal linesep t (send terminal linesep s st).1).1
        ≡ (send terminal linesep (s ++ t) st).1
  unfolding send
  send-append s t (self, w) stream =
      cc (stream s t w, write_log-append s t self.logfile, write_log-append s t self.logfile_send)

  write_log-nothing : (l : Option Text) → write_log [] l ≡ l
  write_log-nothing none = refl
  write_log-nothing (some l) = ap some (append-nil l)

  send-nothing :
      (st : Sender × W)
      → ((w : W) → terminal.write [] w ≡ (0, w))
      → st ≡ (send terminal linesep [] st).1
  unfolding send
  send-nothing (self, w) silent =
      cc (silent w, write_log-nothing self.logfile, write_log-nothing self.logfile_send)

  -- If two writes to the terminal do what one write of both texts does, and a write of nothing does
  -- nothing, `writelines` sends and logs as `send` does with all the texts in one.
  pub writelines-send :
      (sequence : List Text) (st : Sender × W)
      → IsStream
      → ((w : W) → terminal.write [] w ≡ (0, w))
      → writelines terminal linesep sequence st ≡ (send terminal linesep (all_text sequence) st).1
  unfolding writelines
  writelines-send [] st stream silent = send-nothing st silent
  writelines-send (s ∷ sequence) st stream silent =
      writelines-send sequence (send terminal linesep s st).1 stream silent
      ∙ send-append s (all_text sequence) st stream
