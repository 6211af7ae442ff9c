-- ===== src/ProcCheck/Table.antt =====
-- pexpect-dpty/proc_check.py: `count_active_children` on a /proc that shows a table of processes.
use cush.Prelude.{
  ℕ, ◌+◌, ◌≡◌, ◌↔◌, ◌⊎◌, refl, sym, ap, ◌∙◌, inl, inr, true, false, not, Option, none, some, List,
  [], ◌∷◌, ◌++◌, ◌==◌, arith, Bool-cases, if◌then◌else◌, All,
}
use cush.Prelude.Int.{ℤ, pos, negsuc}
use cush.Prelude.Text.{Text, decimal_from, is_digit, is_space, span}
use cush.Prelude.Runs.{IsRun, span-run}
use cush.ProcCheck.Stat.{
  assertion_error, at_least_one, digits, head_fields, ok, parent_groups, ppid_field, raised, word,
}
use cush.ProcCheck.Children.{
  Snapshot, count_active_children, count_children, inspect, is_child, open_stat, to_int, whole_run,
}

-- An entry of /proc: a name that is not a number, a process that has gone, or one with its name (in parentheses),
-- its state, its parent and the rest of its line. A name with a blank in it may have more than one letter behind the
-- blank.
pub data Entry : Type 0 where
  other gone : Text → Entry
  process blank_named : Text → Text → ℕ → Text → Text → Entry

abbrev pub name_of : Entry → Text
name_of (other t) = t
name_of (gone pid) = pid
name_of (process pid command state parent rest) = pid
name_of (blank_named pid command c more rest) = pid

-- The first line of a stat file.
abbrev pub stat_line : Text → Text → ℕ → Text → Text → Text
stat_line pid command state parent rest =
    pid ++ (32 ∷ (command ++ (32 ∷ (state ∷ 32 ∷ (parent ++ (32 ∷ rest))))))

abbrev pub IsWord : Text → Type 0
IsWord t = IsRun (λ c. not (is_space c)) t

-- The entry is what the snapshot shows.
abbrev pub Shows : Snapshot → Entry → Type 0
Shows s (other t) =
    (run : Text) × (c : ℕ) × (rest : Text) × All (λ d. is_digit d ≡ true) run
    × (is_digit c ≡ false)
    × (run ++ (c ∷ rest) ≡ t)
Shows s (gone pid) = IsRun is_digit pid × (s.stat (decimal_from 0 pid) ≡ none)
Shows s (process pid command state parent rest) =
    IsRun is_digit pid
    × IsWord command
    × ((state == b'\n') ≡ false)
    × IsRun is_digit parent
    × (s.stat (decimal_from 0 pid) ≡ some (stat_line pid command state parent rest))
Shows s (blank_named pid command c more rest) =
    IsRun is_digit pid
    × IsWord command
    × ((d : ℕ) × (t : Text) × (more ≡ d ∷ t) × ((d == 32) ≡ false))
    × (s.stat (decimal_from 0 pid) ≡ some (pid ++ (32 ∷ (command ++ (32 ∷ (c ∷ (more ++ rest)))))))

-- How many processes have this parent.
abbrev pub family_size : ℕ → List Entry → ℕ
family_size shell [] = 0
family_size shell (process pid command state parent rest ∷ table) =
    (if decimal_from 0 parent == shell then 1 else 0) + family_size shell table
family_size shell (_ ∷ table) = family_size shell table

abbrev pub names_of : List Entry → List Text
names_of [] = []
names_of (e ∷ table) = name_of e ∷ names_of table

digits-run :
    (run rest : Text) (c : ℕ)
    → IsRun is_digit run
    → is_digit c ≡ false
    → digits (run ++ (c ∷ rest)) ≡ some (run, c ∷ rest)
unfolding digits
digits-run [] rest c (h, ne) d = absurd (ne refl)
digits-run (x ∷ run) rest c (h, ne) d = ap at_least_one (span-run is_digit (x ∷ run) c rest h d)

word-run : (run rest : Text) → IsWord run → word (run ++ (32 ∷ rest)) ≡ some (run, 32 ∷ rest)
unfolding word
word-run [] rest (h, ne) = absurd (ne refl)
word-run (x ∷ run) rest (h, ne) =
    ap at_least_one (span-run (λ c. not (is_space c)) (x ∷ run) 32 rest h refl)

-- A whole run of digits is a number.
to_int-run : (t : Text) → IsRun is_digit t → to_int t ≡ some (decimal_from 0 t)
unfolding to_int span
to_int-run [] (h, ne) = absurd (ne refl)
to_int-run (x ∷ t) (h, ne) = ap whole_run (all_run (x ∷ t) h)
  where
    all_run : (u : Text) → All (λ c. is_digit c ≡ true) u → span is_digit u ≡ (u, [])
    all_run [] k = refl
    all_run (y ∷ u) (e, k) = rw (e, all_run u k)

to_int-other :
    (run rest : Text) (c : ℕ)
    → All (λ d. is_digit d ≡ true) run
    → is_digit c ≡ false
    → to_int (run ++ (c ∷ rest)) ≡ none
unfolding to_int
to_int-other run rest c h d = ap whole_run (span-run is_digit run c rest h d) ∙ cut run
  where
    cut : (u : Text) → whole_run (u, c ∷ rest) ≡ none
    cut [] = refl
    cut (x ∷ u) = refl

parent_groups-process :
    (pid command : Text) (state : ℕ) (parent rest : Text)
    → IsRun is_digit pid
    → IsWord command
    → (state == b'\n') ≡ false
    → IsRun is_digit parent
    → parent_groups (stat_line pid command state parent rest) ≡ some (pid, parent)
unfolding parent_groups head_fields ppid_field
parent_groups-process pid command state parent rest p w n q =
    rw
      (
        digits-run pid (command ++ (32 ∷ (state ∷ 32 ∷ (parent ++ (32 ∷ rest))))) 32 p refl,
        word-run command (state ∷ 32 ∷ (parent ++ (32 ∷ rest))) w,
        n,
        digits-run parent rest 32 q refl,
      )
      refl

parent_groups-blank_named :
    (pid command : Text) (c d : ℕ) (t rest : Text)
    → IsRun is_digit pid
    → IsWord command
    → (d == 32) ≡ false
    → parent_groups (pid ++ (32 ∷ (command ++ (32 ∷ (c ∷ ((d ∷ t) ++ rest)))))) ≡ none
unfolding parent_groups head_fields ppid_field
parent_groups-blank_named pid command c d t rest p w e =
    rw
      (
        digits-run pid (command ++ (32 ∷ (c ∷ ((d ∷ t) ++ rest)))) 32 p refl,
        word-run command (c ∷ ((d ∷ t) ++ rest)) w,
      )
      (elim (Bool-cases (c == b'\n')) [ inl k ↦ rw k refl | inr k ↦ rw (k, e) refl ])

-- What the two groups of an entry are.
abbrev family : Entry → Option (ℕ × ℕ)
family (process pid command state parent rest) = some (decimal_from 0 pid, decimal_from 0 parent)
family _ = none

inspect-family : (s : Snapshot) (e : Entry) → Shows s e → inspect s (name_of e) ≡ family e
unfolding inspect
inspect-family s (other t) (run, c, rest, h, d, e) =
    ap (λ u. open_stat s (to_int u)) (sym e) ∙ ap (open_stat s) (to_int-other run rest c h d)
inspect-family s (gone pid) (p, h) = rw (to_int-run pid p, h) refl
inspect-family s (process pid command state parent rest) (p, w, n, q, h) =
    rw (to_int-run pid p, h, parent_groups-process pid command state parent rest p w n q) refl
inspect-family s (blank_named pid command c more rest) (p, w, (d, t, e, k), h) =
    rw (to_int-run pid p, h, e, parent_groups-blank_named pid command c d t rest p w k) refl

count_children-family_size :
    (shell : ℕ) (s : Snapshot) (table : List Entry) (n : ℕ)
    → All (Shows s) table
    → count_children shell s (names_of table) n ≡ n + family_size shell table
unfolding count_children
count_children-family_size shell s [] n h = omega arith
count_children-family_size shell s (e ∷ table) n (h, rest) =
    ap (λ o. count_children shell s (names_of table) (if is_child shell o then n + 1 else n))
      (inspect-family s e h)
    ∙ go e (λ m. count_children-family_size shell s table m rest)
  where
    go :
        (x : Entry)
        → ((m : ℕ) → count_children shell s (names_of table) m ≡ m + family_size shell table)
        → count_children shell s (names_of table) (if is_child shell (family x) then n + 1 else n)
          ≡ n + family_size shell (x ∷ table)
    go (other t) k = k n
    go (gone pid) k = k n
    go (blank_named pid command c more others) k = k n
    go (process pid command state parent others) k =
        elim (Bool-cases (decimal_from 0 parent == shell)) [
          | inl e ↦ rw e (omega (arith, k (n + 1)))
          | inr e ↦ rw e (omega (arith, k n))
        ]

-- If /proc shows a table of entries, the check passes exactly if the expected number is the number of the processes of
-- the table whose parent is the shell, and every failure is an assertion error. Entries are names that are not numbers,
-- processes that have gone, processes with a name without a blank, and, never counted, processes whose name has a
-- blank with more than one letter behind it.
pub count_active_children-family_size :
    (shell : ℕ) (s : Snapshot) (table : List Entry) (expected : ℤ)
    → s.names ≡ names_of table
    → All (Shows s) table
    → ((count_active_children shell s expected ≡ ok tt)
        ↔ (expected ≡ pos (family_size shell table)))
      × ((count_active_children shell s expected ≡ ok tt)
          ⊎ (count_active_children shell s expected ≡ raised assertion_error))
unfolding count_active_children
count_active_children-family_size shell s table (negsuc n) names h = ((λ k. cc, λ k. cc), inr refl)
count_active_children-family_size shell s table (pos n) names h =
    let k = count_children shell s s.names 0 in
    let e : k ≡ family_size shell table =
      ap (λ ns. count_children shell s ns 0) names
      ∙ count_children-family_size shell s table 0 h
      ∙ omega arith in
    ((λ q. ground (arith, e), λ q. ground (arith, e)), ground arith)
