-- ===== src/ProcCheck/Foreground.antt =====
-- pexpect-dpty/proc_check.py: `wait_until_child_is_in_foreground` and `check_foreground_process`.
use cush.Prelude.{ℕ, Bool, true, false, Option, none, some, List, [], ◌∷◌, ◌==◌, if◌then◌else◌}
use cush.Prelude.Int.{ℤ, ◌+ℤ◌, ◌-ℤ◌, is_negative}
use cush.Prelude.Text.{Text, decimal_from, text_eq}
use cush.ProcCheck.Stat.{
  Groups, Result, assertion_error, attribute_error, group_fields, ok, raised, timed_out, type_error,
}
use cush.ProcCheck.Children.{effective}

-- The stat file of the process group's leader: missing, there but not readable, or its first line.
pub data StatFile : Type 0 where
  missing unreadable : StatFile
  line : Text → StatFile

-- The assertions on the fields: the process owns the terminal, and it is a child of the shell.
abbrev pub check_groups : ℕ → Option Groups → Result Bool
check_groups parent_pid none = raised attribute_error
check_groups parent_pid (some g) =
    if text_eq g.pgrp g.tpgid
    then (if decimal_from 0 g.ppid == parent_pid then ok true else raised assertion_error)
    else raised assertion_error

unfoldable pub check_foreground_process : ℕ → StatFile → Result Bool
unfolding group_fields decimal_from
check_foreground_process parent_pid missing = ok false
check_foreground_process parent_pid unreadable = ok false
check_foreground_process parent_pid (line stat_str) =
    check_groups parent_pid (group_fields stat_str)

-- A pass of the loop: the foreground group that its test reads, the one that a call behind the loop
-- would read, the stat file of that one, and the clock behind the sleep.
pub record Poll : Type 0 where
  pub pgrp : ℕ
  pub again : ℕ
  pub now : ℤ

abbrev pub accept : Result Bool → Result (Unit {0})
accept (ok true) = ok tt
accept (ok false) = raised assertion_error
accept (raised e) = raised e

-- `none`: the polls have run out and the loop goes on.
module _ (shell : ℕ) (stat_file : ℕ → StatFile) where
  unfoldable pub wait_loop : ℤ → List Poll → Option (Result (Unit {0}))
  unfolding check_foreground_process
  wait_loop end_time [] = none
  wait_loop end_time (p ∷ polls) =
      let rest = wait_loop end_time polls in
      if p.pgrp == shell
      then (if is_negative (end_time -ℤ p.now) then some (raised timed_out) else rest)
      else some (accept (check_foreground_process shell (stat_file p.again)))

  -- time.time() + pexpect_mod.timeout
  abbrev pub wait_from : Option ℤ → ℤ → List Poll → Option (Result (Unit {0}))
  wait_from none start polls = some (raised type_error)
  wait_from (some t) start polls = wait_loop (start +ℤ t) polls

  -- All that follows stands in the block of `if timeout is not None`: with tabs of eight columns the
  -- loop and the assertion are indented as its first line is.
  abbrev pub wait_unless_none : Option ℤ → Option ℤ → ℤ → List Poll → Option (Result (Unit {0}))
  wait_unless_none default none start polls = some (ok tt)
  wait_unless_none default (some timeout) start polls = wait_from default start polls

  abbrev pub replace_default : Option ℤ → Option ℤ → Option ℤ
  replace_default default none = none
  replace_default default (some timeout) = effective default timeout

  unfoldable pub wait_until_child_is_in_foreground :
      Option ℤ → Option ℤ → ℤ → List Poll → Option (Result (Unit {0}))
  unfolding wait_loop
  wait_until_child_is_in_foreground default timeout start polls =
      wait_unless_none default (replace_default default timeout) start polls
