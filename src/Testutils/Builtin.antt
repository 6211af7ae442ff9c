-- ===== src/Testutils/Builtin.antt =====
-- The commands that `run_builtin` sends, and the status that `parse_job_line` gives.
use cush.Prelude.{◌≡◌, refl, ap, false, some, List, [], ◌∷◌, ◌++◌, All, ◌==◌, append-nil}
use cush.Prelude.Text.{Text, codes}
use cush.Pexpect.Sending.{Sender, Terminal, sendline}
use cush.Testutils.{command_format, format, output_spec, put, run_builtin, send_formatted, tested}

-- A text without a percent sign stands for itself.
format-plain : (t : Text) → All (λ c. (c == b'%') ≡ false) t → format t [] ≡ some t
unfolding format
format-plain [] h = refl
format-plain (c ∷ []) (h, rest) = rw h refl
format-plain (c ∷ d ∷ t) (h, rest) = rw h (ap (put (c ∷ [])) (format-plain (d ∷ t) rest))

-- Such a text in front of `%s` stands before the argument.
format-job :
    (t a : Text)
    → All (λ c. (c == b'%') ≡ false) t
    → format (t ++ codes "%s") (a ∷ []) ≡ some (t ++ a)
unfolding format
format-job [] a h = ap some (append-nil a)
format-job (c ∷ []) a (h, rest) = rw h (ap (put (c ∷ [])) (format-job [] a tt))
format-job (c ∷ d ∷ t) a (h, rest) = rw h (ap (put (c ∷ [])) (format-job (d ∷ t) a rest))

-- The builtin commands of a shell, some of them with a job.
pub data Builtin : Type 0 where
  stop kill fg bg : Text → Builtin
  jobs exit : Builtin

abbrev pub name_of : Builtin → Text
name_of (stop job) = codes "stop"
name_of (kill job) = codes "kill"
name_of (fg job) = codes "fg"
name_of (bg job) = codes "bg"
name_of jobs = codes "jobs"
name_of exit = codes "exit"

abbrev pub args_of : Builtin → List Text
args_of (stop job) = job ∷ []
args_of (kill job) = job ∷ []
args_of (fg job) = job ∷ []
args_of (bg job) = job ∷ []
args_of jobs = []
args_of exit = []

-- The name, and behind a blank the job.
abbrev pub line_of : Text → List Text → Text
line_of name [] = name
line_of name (job ∷ args) = name ++ (32 ∷ job)

format-Builtin :
    (user : Text) (b : Builtin)
    → format (command_format (output_spec user).builtin_commands (name_of b)) (args_of b)
      ≡ some (line_of (name_of b) (args_of b))
unfolding output_spec
format-Builtin user (stop job) =
    format-job (codes "stop ") job (refl, (refl, (refl, (refl, (refl, tt)))))
format-Builtin user (kill job) =
    format-job (codes "kill ") job (refl, (refl, (refl, (refl, (refl, tt)))))
format-Builtin user (fg job) = format-job (codes "fg ") job (refl, (refl, (refl, tt)))
format-Builtin user (bg job) = format-job (codes "bg ") job (refl, (refl, (refl, tt)))
format-Builtin user jobs = format-plain (codes "jobs") (refl, (refl, (refl, (refl, tt))))
format-Builtin user exit = format-plain (codes "exit") (refl, (refl, (refl, (refl, tt))))

-- With the definitions of `output_spec.py`, whoever the user is: a builtin command sends the line with its
-- name and, for stop, kill, fg and bg, a blank and the job, whatever characters the job is written with.
pub run_builtin-sendline :
    {W : Type 0} (terminal : Terminal W) (linesep user : Text) (b : Builtin) (st : Sender × W)
    → run_builtin terminal linesep (output_spec user) (name_of b) (args_of b) st
      ≡ tested (sendline terminal linesep (line_of (name_of b) (args_of b)) st).1
unfolding run_builtin
run_builtin-sendline terminal linesep user b st =
    ap (λ o. send_formatted terminal linesep o st) (format-Builtin user b)
