-- ===== src/Pexpect/Sending/Tests.antt =====
-- Sending at concrete inputs, to a terminal that takes every byte.
use cush.Prelude.{
  ◌≡◌, none, some, [], ◌∷◌, ◌++◌, length, length-append, append_assoc, append-nil, ap,
}
use cush.Prelude.Text.{Text, codes}
use cush.Pexpect.Sending.{Sender, Terminal, send, sendcontrol, sendline, writelines}
use cush.Pexpect.Sending.Control.{
  IsStream, control_char, sendcontrol-control_char, sendline-send, writelines-send,
}

-- The world is what the child can read.
abbrev tty : Terminal Text
tty = record { write = λ s w. (length s, w ++ s); vintr = none; veof = some (λ w. 4) }

abbrev sender : Sender
sender = record { logfile = some (codes "log: "); logfile_send = none }

tty-IsStream : IsStream tty (codes "\n")
tty-IsStream s t w = cc (length-append s t, append_assoc w s t)

sendcontrol-control_char_example :
    sendcontrol tty (codes "\n") b'Z' (sender, []) ≡ send tty (codes "\n") (26 ∷ []) (sender, [])
unfolding control_char
sendcontrol-control_char_example = sendcontrol-control_char tty (codes "\n") b'Z' (sender, [])

test_sendline-send :
    sendline tty (codes "\n") (codes "jobs") (sender, [])
    ≡ send tty (codes "\n") (codes "jobs\n") (sender, [])
test_sendline-send = sendline-send tty (codes "\n") (codes "jobs") (sender, []) tty-IsStream

test_writelines :
    writelines tty (codes "\n") (codes "fg" ∷ codes " 1\n" ∷ []) (sender, [])
    ≡ (send tty (codes "\n") (codes "fg 1\n") (sender, [])).1
test_writelines =
    writelines-send tty (codes "\n") (codes "fg" ∷ codes " 1\n" ∷ []) (sender, []) tty-IsStream
      (λ w. ap (λ v. (0, v)) (append-nil w))
