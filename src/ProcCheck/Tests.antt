-- ===== src/ProcCheck/Tests.antt =====
-- pexpect-dpty/proc_check.py at concrete inputs.
use cush.Prelude.{ℕ, ◌≡◌, ◌⊎◌, ◌↔◌, refl, inl, true, none, some, List, [], ◌∷◌, ◌==◌, if◌then◌else◌}
use cush.Prelude.Int.{pos}
use cush.Prelude.Text.{Text, codes, decimal_from}
use cush.ProcCheck.Stat.{
  assertion_error, attribute_error, check_pid_fgpgrp, check_pid_status, ok, raised, timed_out,
}
use cush.ProcCheck.Children.{
  Pass, Snapshot, count_active_children, count_children_timeout, inspect, member,
}
use cush.ProcCheck.Foreground.{Poll, StatFile, line, missing, wait_until_child_is_in_foreground}
use cush.ProcCheck.Counted.{Distinct, count_children_timeout_lem, ever_seen, passes_made}
use cush.ProcCheck.Table.{
  Entry, blank_named, count_active_children-family_size, family_size, other, process,
}
use cush.ProcCheck.Awaited.{
  Awaited, OutOfTime, wait_until_child_is_in_foreground-Awaited,
  wait_until_child_is_in_foreground_ignores,
}

-- sleep, in the foreground of a terminal, as a child of process 100.
abbrev sleep_line : Text
sleep_line = codes "200 (sleep) S 100 200 90 34816 200 4194304"

-- A name with a blank in it.
abbrev blank_line : Text
blank_line = codes "201 (my prog) S 100 201 90 34816 201 4194304"

test_check_pid_fgpgrp : check_pid_fgpgrp (some sleep_line) ≡ ok true
unfolding check_pid_fgpgrp
test_check_pid_fgpgrp = refl

test_check_pid_fgpgrp_blank : check_pid_fgpgrp (some blank_line) ≡ raised attribute_error
unfolding check_pid_fgpgrp
test_check_pid_fgpgrp_blank = refl

test_check_pid_status : check_pid_status (some sleep_line) (codes "S") ≡ ok true
unfolding check_pid_status
test_check_pid_status = refl

abbrev proc : Snapshot
proc = record {
  names = codes "self" ∷ codes "200" ∷ codes "201" ∷ [];
  stat =
      λ pid. if pid == 200 then some sleep_line else (if pid == 201 then some blank_line else none);
}

test_count_active_children : count_active_children 100 proc (pos 1) ≡ ok tt
unfolding count_active_children inspect
test_count_active_children = refl

abbrev table : List Entry
table =
    other (codes "self")
    ∷ process (codes "200") (codes "(sleep)") b'S' (codes "100") (codes "200 90 34816 200 4194304")
    ∷ blank_named (codes "201") (codes "(my") b'p' (codes "rog)")
        (codes " S 100 201 90 34816 201 4194304")
    ∷ []

count_active_children-family_size_example :
    ((count_active_children 100 proc (pos 1) ≡ ok tt) ↔ (pos 1 ≡ pos (family_size 100 table)))
    × ((count_active_children 100 proc (pos 1) ≡ ok tt)
        ⊎ (count_active_children 100 proc (pos 1) ≡ raised assertion_error))
unfolding decimal_from
count_active_children-family_size_example =
    count_active_children-family_size 100 proc table (pos 1) refl (
      ([], b's', codes "elf", tt, refl, refl),
      (
        (
          ((refl, (refl, (refl, tt))), λ h. cc),
          ((refl, (refl, (refl, (refl, (refl, (refl, (refl, tt))))))), λ h. cc),
          refl,
          ((refl, (refl, (refl, tt))), λ h. cc),
          refl,
        ),
        (
          (
            ((refl, (refl, (refl, tt))), λ h. cc),
            ((refl, (refl, (refl, tt))), λ h. cc),
            (b'r', codes "og)", refl, refl),
            refl,
          ),
          tt,
        ),
      ),
    )

abbrev two_passes : List Pass
two_passes = record { seen = proc; now = pos 10 } ∷ record { seen = proc; now = pos 1010 } ∷ []

count_children_timeout_lem_example :
    (pos 1 ≡ pos 1)
    × Distinct (200 ∷ [])
    × ((p : ℕ)
        → member p (200 ∷ []) ≡ ever_seen 100 p (passes_made (pos 1000) (pos 1000) two_passes))
unfolding count_children_timeout inspect
count_children_timeout_lem_example =
    count_children_timeout_lem 100 (some (pos 5000)) (pos 1) (pos 1000) (pos 1000) (pos 0)
      two_passes (200 ∷ []) refl refl

abbrev stat_file : ℕ → StatFile
stat_file pid = if pid == 200 then line sleep_line else missing

abbrev two_polls : List Poll
two_polls =
    record { pgrp = 100; again = 100; now = pos 10 }
    ∷ record { pgrp = 200; again = 200; now = pos 20 }
    ∷ []

wait_until_child_is_in_foreground-Awaited_example : Awaited 100 stat_file two_polls
unfolding wait_until_child_is_in_foreground
wait_until_child_is_in_foreground-Awaited_example =
    wait_until_child_is_in_foreground-Awaited 100 stat_file (pos 5000) (pos 1) (pos 0) two_polls
      refl

abbrev long_wait : List Poll
long_wait = record { pgrp = 100; again = 100; now = pos 5001 } ∷ []

wait_until_child_is_in_foreground_ignores_example :
    (wait_until_child_is_in_foreground 100 stat_file
        (some (pos 5000))
        (some (pos 60000))
        (pos 0)
        long_wait
      ≡ some (raised timed_out))
    × (wait_until_child_is_in_foreground 100 stat_file (some (pos 5000)) none (pos 0) long_wait
        ≡ some (ok tt))
unfolding OutOfTime
wait_until_child_is_in_foreground_ignores_example =
    wait_until_child_is_in_foreground_ignores 100 stat_file (pos 5000) (pos 60000) (pos 0) long_wait
      (refl, inl refl)
