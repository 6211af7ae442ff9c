-- ===== src/ProcCheck/Children.antt =====
-- pexpect-dpty/proc_check.py: `count_active_children` and `count_children_timeout`.
use cush.Prelude.{
  ℕ, ◌+◌, Bool, true, false, not, ◌&&◌, Option, none, some, List, [], ◌∷◌, ◌++◌, ◌==◌,
  if◌then◌else◌, length,
}
use cush.Prelude.Int.{ℤ, pos, negsuc, ◌+ℤ◌, ◌-ℤ◌, ◌==ℤ◌, is_negative, is_positive}
use cush.Prelude.Text.{Text, decimal_from, is_digit, span}
use cush.ProcCheck.Stat.{Result, assertion_error, ok, parent_groups, raised, type_error}

-- What a pass over /proc sees: the names in the directory, and the first line of the stat file of a
-- process, where it can still be opened.
pub record Snapshot : Type 0 where
  pub names : List Text
  pub stat : ℕ → Option Text

-- int(pid), for a name of /proc: a run of digits.
abbrev pub whole_run : Text × Text → Option ℕ
whole_run ([], rest) = none
whole_run (c ∷ run, []) = some (decimal_from 0 (c ∷ run))
whole_run (c ∷ run, d ∷ rest) = none

unfoldable pub to_int : Text → Option ℕ
unfolding span decimal_from
to_int name = whole_run (span is_digit name)

-- The process and its parent, as the two groups name them.
abbrev pub family_of : Option (Text × Text) → Option (ℕ × ℕ)
family_of none = none
family_of (some (pid, ppid)) = some (decimal_from 0 pid, decimal_from 0 ppid)

abbrev pub read_stat : Option Text → Option (ℕ × ℕ)
read_stat none = none
read_stat (some stat_str) = family_of (parent_groups stat_str)

abbrev pub open_stat : Snapshot → Option ℕ → Option (ℕ × ℕ)
open_stat s none = none
open_stat s (some pid) = read_stat (s.stat pid)

-- The body of both `try` blocks: the number and the parent of the process that a name stands for, or
-- nothing where an exception is passed over.
unfoldable pub inspect : Snapshot → Text → Option (ℕ × ℕ)
unfolding to_int parent_groups
inspect s name = open_stat s (to_int name)

-- if ppid == pexpect_mod.pid
abbrev pub is_child : ℕ → Option (ℕ × ℕ) → Bool
is_child shell none = false
is_child shell (some (pid, ppid)) = ppid == shell

unfoldable pub count_children : ℕ → Snapshot → List Text → ℕ → ℕ
count_children shell s [] num_children_found = num_children_found
count_children shell s (name ∷ names) num_children_found =
    count_children shell s names
      (if is_child shell (inspect s name) then num_children_found + 1 else num_children_found)

-- The two assertions at the end, on what was found.
abbrev pub compare_counts {ℓ} : {A : Type ℓ} → ℕ → ℤ → A → Result A
compare_counts found (negsuc n) a = raised assertion_error
compare_counts found (pos n) a = if found == n then ok a else raised assertion_error

unfoldable pub count_active_children : ℕ → Snapshot → ℤ → Result (Unit {0})
unfolding count_children
count_active_children shell s num_children_expected =
    if is_negative num_children_expected
    then raised assertion_error
    else compare_counts (count_children shell s s.names 0) num_children_expected tt

-- children_found.count(pid) == 0
abbrev pub member : ℕ → List ℕ → Bool
member p [] = false
member p (q ∷ found) = if p == q then true else member p found

abbrev pub note_child : ℕ → List ℕ → Option (ℕ × ℕ) → List ℕ
note_child shell found none = found
note_child shell found (some (pid, ppid)) =
    if ppid == shell && not (member pid found) then found ++ pid ∷ [] else found

unfoldable pub scan : ℕ → Snapshot → List Text → List ℕ → List ℕ
scan shell s [] found = found
scan shell s (name ∷ names) found = scan shell s names (note_child shell found (inspect s name))

-- A pass of the timed loop: what it sees, and the clock behind it.
pub record Pass : Type 0 where
  pub seen : Snapshot
  pub now : ℤ

-- `none`: the passes have run out and the loop goes on. The number of children found is the length
-- of the list, to which each of them is appended.
module _ (shell : ℕ) (end_time : ℤ) where
  unfoldable pub timed_loop : ℤ → List ℕ → List Pass → Option (List ℕ)
  timed_loop timeout found [] = if is_positive timeout then none else some found
  timed_loop timeout found (p ∷ passes) =
      let rest = timed_loop (end_time -ℤ p.now) (scan shell p.seen p.seen.names found) passes in
      if is_positive timeout then rest else some found

abbrev pub judge : ℤ → Option (List ℕ) → Option (Result (List ℕ))
judge expected none = none
judge expected (some found) = some (compare_counts (length found) expected found)

-- if timeout == -1, in milliseconds
abbrev pub effective : Option ℤ → ℤ → Option ℤ
effective default timeout = if timeout ==ℤ negsuc 999 then default else some timeout

abbrev pub run_timed : ℕ → ℤ → ℤ → List Pass → Option ℤ → Option (Result (List ℕ))
run_timed shell expected start passes none = some (raised type_error)
run_timed shell expected start passes (some timeout) =
    judge expected (timed_loop shell (start +ℤ timeout) timeout [] passes)

unfoldable pub count_children_timeout :
    ℕ → Option ℤ → ℤ → Option ℤ → ℤ → List Pass → Option (Result (List ℕ))
unfolding timed_loop scan
count_children_timeout shell default num_children_expected none start passes =
    some (raised assertion_error)
count_children_timeout shell default num_children_expected (some timeout) start passes =
    if is_negative num_children_expected
    then some (raised assertion_error)
    else run_timed shell num_children_expected start passes (effective default timeout)
