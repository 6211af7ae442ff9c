-- ===== src/ProcCheck/Stat.antt =====
-- pexpect-dpty/proc_check.py: the patterns that are matched against /proc/<pid>/stat,
-- `check_pid_fgpgrp` and `check_pid_status`.
use cush.Prelude.{ℕ, Bool, not, Option, none, some, [], ◌∷◌, ◌==◌, if◌then◌else◌, ◌>>=◌}
use cush.Prelude.Text.{Text, is_digit, is_space, span, text_eq}

-- The exceptions that end a check.
pub data Error : Type 0 where
  io_error attribute_error assertion_error type_error timed_out : Error

pub data Result {ℓ} (A : Type ℓ) : Type ℓ where
  ok : A → Result A
  raised : Error → Result A

-- \d+ and \S+: in these patterns what follows them cannot match what they match, so the longest run
-- is the only one to try.
abbrev pub at_least_one : Text × Text → Option (Text × Text)
at_least_one ([], rest) = none
at_least_one (c ∷ run, rest) = some (c ∷ run, rest)

unfoldable pub digits : Text → Option (Text × Text)
unfolding span
digits t = at_least_one (span is_digit t)

unfoldable pub word : Text → Option (Text × Text)
unfolding span
word t = at_least_one (span (λ c. not (is_space c)) t)

-- A space, and the dot, which matches all but a newline.
abbrev pub blank : Text → Option Text
blank [] = none
blank (c ∷ t) = if c == 32 then some t else none

abbrev pub any_char : Text → Option (ℕ × Text)
any_char [] = none
any_char (c ∷ t) = if c == b'\n' then none else some (c, t)

-- A number with the space behind it.
abbrev pub number_blank : Text → Option (Text × Text)
number_blank t = digits t >>= λ r. blank r.1 >>= λ u. some (r.0, u)

-- The state letter and what follows it, behind "\d+ \S+ "; with the number in front.
unfoldable pub head_fields : Text → Option (Text × ℕ × Text)
unfolding digits word
head_fields t = number_blank t >>= λ p.
    word p.1 >>= λ w. blank w.1 >>= λ u. any_char u >>= λ s. some (p.0, s.0, s.1)

-- " (\d+)" behind the state letter: the process id of the parent.
unfoldable pub ppid_field : Text → Option (Text × Text)
unfolding digits
ppid_field t = blank t >>= digits

-- The groups of "(\d+) \S+ . (\d+)".
unfoldable pub parent_groups : Text → Option (Text × Text)
unfolding head_fields ppid_field
parent_groups line = head_fields line >>= λ h. ppid_field h.2 >>= λ p. some (h.0, p.0)

-- The fields ppid, pgrp and tpgid of "\d+ \S+ . (\d+) (\d+) \d+ \d+ (\d+)".
pub record Groups : Type 0 where
  pub ppid : Text
  pub pgrp : Text
  pub tpgid : Text

unfoldable pub group_fields : Text → Option Groups
unfolding head_fields digits
group_fields line = head_fields line >>= λ h. blank h.2 >>= λ t. number_blank t >>= λ ppid.
    number_blank ppid.1 >>= λ pgrp. number_blank pgrp.1 >>= λ session.
    number_blank session.1 >>= λ tty.
    digits tty.1 >>= λ tpgid. some (record { ppid = ppid.0; pgrp = pgrp.0; tpgid = tpgid.0 })

-- The first group of "\d+ \S+ (.) \d+ \d+ \d+ \d+ \d+".
unfoldable pub status_field : Text → Option ℕ
unfolding group_fields
status_field line = head_fields line >>= λ h. group_fields line >>= λ g. some h.1

-- The first line of the stat file of a process, or nothing where the file cannot be opened.
abbrev pub fgpgrp_of : Option Groups → Result Bool
fgpgrp_of none = raised attribute_error
fgpgrp_of (some g) = ok (text_eq g.pgrp g.tpgid)

unfoldable pub check_pid_fgpgrp : Option Text → Result Bool
unfolding group_fields
check_pid_fgpgrp none = raised io_error
check_pid_fgpgrp (some stat_str) = fgpgrp_of (group_fields stat_str)

abbrev pub status_of : Text → Option ℕ → Result Bool
status_of pid_status none = raised attribute_error
status_of pid_status (some c) = ok (text_eq (c ∷ []) pid_status)

unfoldable pub check_pid_status : Option Text → Text → Result Bool
unfolding status_field
check_pid_status none pid_status = raised io_error
check_pid_status (some stat_str) pid_status = status_of pid_status (status_field stat_str)
