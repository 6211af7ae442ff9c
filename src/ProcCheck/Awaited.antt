-- ===== src/ProcCheck/Awaited.antt =====
-- The wait for a foreground process in pexpect-dpty/proc_check.py.
use cush.Prelude.{
  ℕ, ◌≡◌, ◌⊎◌, refl, sym, ◌∙◌, inl, inr, Bool, true, false, Option, none, some, List, [], ◌∷◌, ◌==◌,
  arith, Bool-cases, if◌then◌else◌,
}
use cush.Prelude.Int.{ℤ, negsuc, ◌+ℤ◌, ◌-ℤ◌, ◌==ℤ◌, is_negative}
use cush.Prelude.Text.{decimal_from, text_eq}
use cush.ProcCheck.Stat.{Groups, Result, group_fields, ok, assertion_error, raised, timed_out}
use cush.ProcCheck.Foreground.{
  Poll, StatFile, accept, check_foreground_process, check_groups, line, missing, unreadable,
  wait_loop, wait_until_child_is_in_foreground,
}

-- The stat line of a process that owns its terminal and is a child of the shell.
pub OwnsTerminal : ℕ → StatFile → Type 0
OwnsTerminal shell missing = ⊥
OwnsTerminal shell unreadable = ⊥
OwnsTerminal shell (line t) =
    (g : Groups) × (group_fields t ≡ some g)
    × (text_eq g.pgrp g.tpgid ≡ true)
    × (decimal_from 0 g.ppid ≡ shell)

check_groups-ok :
    (shell : ℕ) (o : Option Groups)
    → check_groups shell o ≡ ok true
    → (g : Groups) × (o ≡ some g)
      × (text_eq g.pgrp g.tpgid ≡ true)
      × (decimal_from 0 g.ppid ≡ shell)
check_groups-ok shell none h = absurd cc
check_groups-ok shell (some g) h = elim (Bool-cases (text_eq g.pgrp g.tpgid)) [
  | inl e ↦ elim (Bool-cases (decimal_from 0 g.ppid == shell)) [
    | inl q ↦ (g, refl, e, ground (arith, q))
    | inr q ↦ absurd (mistaken e q)
  ]
  | inr e ↦ absurd (cc (rw e at h))
]
  where
    mistaken : text_eq g.pgrp g.tpgid ≡ true → (decimal_from 0 g.ppid == shell) ≡ false → ⊥
    mistaken e q =
        let k : (if decimal_from 0 g.ppid == shell then ok true else raised assertion_error)
            ≡ ok true =
          rw e at h in
        cc (rw q at k)

check_foreground_process-OwnsTerminal :
    (shell : ℕ) (file : StatFile)
    → check_foreground_process shell file ≡ ok true
    → OwnsTerminal shell file
unfolding check_foreground_process OwnsTerminal
check_foreground_process-OwnsTerminal shell missing h = absurd cc
check_foreground_process-OwnsTerminal shell unreadable h = absurd cc
check_foreground_process-OwnsTerminal shell (line t) h = check_groups-ok shell (group_fields t) h

unwrapped : {r s : Result (Unit {0})} → some r ≡ some s → r ≡ s
unwrapped h = cc

accept-ok : (r : Result Bool) → accept r ≡ ok tt → r ≡ ok true
accept-ok (ok true) h = refl
accept-ok (ok false) h = absurd cc
accept-ok (raised e) h = absurd cc

-- The polls up to the first that does not show the shell, which the stat file must confirm.
unfoldable pub Awaited : ℕ → (ℕ → StatFile) → List Poll → Type 0
Awaited shell stat_file [] = ⊥
Awaited shell stat_file (p ∷ polls) =
    ((p.pgrp == shell ≡ false) × OwnsTerminal shell (stat_file p.again))
    ⊎ ((p.pgrp == shell ≡ true) × Awaited shell stat_file polls)

wait_loop-Awaited :
    (shell : ℕ) (stat_file : ℕ → StatFile) (end_time : ℤ) (polls : List Poll)
    → wait_loop shell stat_file end_time polls ≡ some (ok tt)
    → Awaited shell stat_file polls
unfolding wait_loop Awaited
wait_loop-Awaited shell stat_file end_time [] h = absurd cc
wait_loop-Awaited shell stat_file end_time (p ∷ polls) h = elim (Bool-cases (p.pgrp == shell)) [
  | inl e ↦ inr (e, wait_loop-Awaited shell stat_file end_time polls (waited (rw e at h)))
  | inr e ↦ inl (
    e,
    check_foreground_process-OwnsTerminal shell (stat_file p.again)
        (accept-ok (check_foreground_process shell (stat_file p.again)) (unwrapped (rw e at h))),
  )
]
  where
    waited :
        (if is_negative (end_time -ℤ p.now)
            then some (raised timed_out)
            else wait_loop shell stat_file end_time polls)
          ≡ some (ok tt)
        → wait_loop shell stat_file end_time polls ≡ some (ok tt)
    waited k = elim (Bool-cases (is_negative (end_time -ℤ p.now))) [
      | inl late ↦ absurd (cc (rw late at k))
      | inr early ↦ rw early at k
    ]

-- The deadline is that of the object, whichever timeout is given.
always_from :
    (shell : ℕ) (stat_file : ℕ → StatFile) (d timeout start : ℤ) (polls : List Poll)
    → wait_until_child_is_in_foreground shell stat_file (some d) (some timeout) start polls
      ≡ wait_loop shell stat_file (start +ℤ d) polls
unfolding wait_until_child_is_in_foreground
always_from shell stat_file d timeout start polls = elim (Bool-cases (timeout ==ℤ negsuc 999)) [
  | inl e ↦ rw e refl
  | inr e ↦ rw e refl
]

-- Where the wait with a timeout passes, the polls showed the shell in the foreground until one that
-- did not, and the stat file that was read then tells of a process that owns its terminal and is a
-- child of the shell.
pub wait_until_child_is_in_foreground-Awaited :
    (shell : ℕ) (stat_file : ℕ → StatFile) (d timeout start : ℤ) (polls : List Poll)
    → wait_until_child_is_in_foreground shell stat_file (some d) (some timeout) start polls
      ≡ some (ok tt)
    → Awaited shell stat_file polls
unfolding wait_until_child_is_in_foreground
wait_until_child_is_in_foreground-Awaited shell stat_file d timeout start polls h =
    wait_loop-Awaited shell stat_file (start +ℤ d) polls
      (sym (always_from shell stat_file d timeout start polls) ∙ h)

-- The shell stays in the foreground, and the clock of one of the polls has passed the deadline.
unfoldable pub OutOfTime : ℕ → ℤ → List Poll → Type 0
OutOfTime shell end_time [] = ⊥
OutOfTime shell end_time (p ∷ polls) =
    (p.pgrp == shell ≡ true)
    × ((is_negative (end_time -ℤ p.now) ≡ true) ⊎ OutOfTime shell end_time polls)

wait_loop-OutOfTime :
    (shell : ℕ) (stat_file : ℕ → StatFile) (end_time : ℤ) (polls : List Poll)
    → OutOfTime shell end_time polls
    → wait_loop shell stat_file end_time polls ≡ some (raised timed_out)
unfolding wait_loop OutOfTime
wait_loop-OutOfTime shell stat_file end_time [] o = absurd o
wait_loop-OutOfTime shell stat_file end_time (p ∷ polls) (e, inl late) = rw e (rw late refl)
wait_loop-OutOfTime shell stat_file end_time (p ∷ polls) (e, inr later) =
    rw e (elim (Bool-cases (is_negative (end_time -ℤ p.now))) [
      | inl late ↦ rw late refl
      | inr early ↦ rw early (wait_loop-OutOfTime shell stat_file end_time polls later)
    ])

-- Where the shell stays in the foreground until the time of the pexpect object is over, a call that is
-- given a timeout ends in TIMEOUT, whichever timeout it is, while a call with the timeout None returns
-- as if a child had taken the terminal.
pub wait_until_child_is_in_foreground_ignores :
    (shell : ℕ) (stat_file : ℕ → StatFile) (d timeout start : ℤ) (polls : List Poll)
    → OutOfTime shell (start +ℤ d) polls
    → (wait_until_child_is_in_foreground shell stat_file (some d) (some timeout) start polls
        ≡ some (raised timed_out))
      × (wait_until_child_is_in_foreground shell stat_file (some d) none start polls ≡ some (ok tt))
unfolding wait_until_child_is_in_foreground
wait_until_child_is_in_foreground_ignores shell stat_file d timeout start polls o = (
  always_from shell stat_file d timeout start polls
      ∙ wait_loop-OutOfTime shell stat_file (start +ℤ d) polls o,
  refl,
)
