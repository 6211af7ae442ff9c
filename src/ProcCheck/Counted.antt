-- ===== src/ProcCheck/Counted.antt =====
-- The two counts of child processes in pexpect-dpty/proc_check.py.
use mathlib.Core.Path.{subst}
use cush.Prelude.{
  ℕ, ◌≡◌, ◌⊎◌, refl, sym, ap, ◌∙◌, inl, inr, Bool, true, false, not, ◌&&◌, ◌||◌, Option, none, some,
  List, [], ◌∷◌, ◌++◌, ◌==◌, arith, Bool-cases, if◌then◌else◌, length,
}
use cush.Prelude.Int.{ℤ, pos, negsuc, ◌+ℤ◌, ◌-ℤ◌, is_positive}
use cush.Prelude.Text.{Text}
use cush.ProcCheck.Stat.{ok}
use cush.ProcCheck.Children.{
  Pass, Snapshot, compare_counts, count_children_timeout, effective, inspect, judge, member,
  note_child, scan, timed_loop,
}

-- A name under which the process `p` is seen as a child.
abbrev pub is_this : ℕ → ℕ → Option (ℕ × ℕ) → Bool
is_this shell p none = false
is_this shell p (some (pid, ppid)) = ppid == shell && p == pid

pub sees : ℕ → Snapshot → ℕ → List Text → Bool
sees shell s p [] = false
sees shell s p (name ∷ names) = is_this shell p (inspect s name) || sees shell s p names

abbrev pub Distinct : List ℕ → Type 0
Distinct [] = Unit
Distinct (p ∷ found) = (member p found ≡ false) × Distinct found

member-concat : (p q : ℕ) (found : List ℕ) → member p (found ++ q ∷ []) ≡ (member p found || p == q)
member-concat p q [] = ground arith
member-concat p q (x ∷ found) = ground (arith, member-concat p q found)

Distinct-concat :
    (q : ℕ) (found : List ℕ) → Distinct found → member q found ≡ false → Distinct (found ++ q ∷ [])
Distinct-concat q [] d h = (refl, tt)
Distinct-concat q (x ∷ found) (a, d) h =
    (ground (arith, member-concat x q found), Distinct-concat q found d (ground arith))

module _ (shell p : ℕ) where
  member-note_child :
      (found : List ℕ) (o : Option (ℕ × ℕ))
      → member p (note_child shell found o) ≡ (member p found || is_this shell p o)
  member-note_child found none = ground arith
  member-note_child found (some (pid, ppid)) = ground (arith, member-concat p pid found)

  member-scan :
      (s : Snapshot) (names : List Text) (found : List ℕ)
      → member p (scan shell s names found) ≡ (member p found || sees shell s p names)
  unfolding scan sees
  member-scan s [] found = ground arith
  member-scan s (name ∷ names) found = ground (
    arith,
    member-scan s names (note_child shell found (inspect s name)),
    member-note_child found (inspect s name),
  )

Distinct-note_child :
    (shell : ℕ) (found : List ℕ) (o : Option (ℕ × ℕ))
    → Distinct found
    → Distinct (note_child shell found o)
Distinct-note_child shell found none d = d
Distinct-note_child shell found (some (pid, ppid)) d =
    elim (Bool-cases (ppid == shell && not (member pid found))) [
      | inl e ↦ rw e (Distinct-concat pid found d (ground arith))
      | inr e ↦ rw e d
    ]

Distinct-scan :
    (shell : ℕ) (s : Snapshot) (names : List Text) (found : List ℕ)
    → Distinct found
    → Distinct (scan shell s names found)
unfolding scan
Distinct-scan shell s [] found d = d
Distinct-scan shell s (name ∷ names) found d =
    Distinct-scan shell s names (note_child shell found (inspect s name))
      (Distinct-note_child shell found (inspect s name) d)

-- The passes that the timed loop makes, of those that it could make.
pub passes_made : ℤ → ℤ → List Pass → List Pass
passes_made end_time timeout [] = []
passes_made end_time timeout (p ∷ passes) =
    let rest = passes_made end_time (end_time -ℤ p.now) passes in
    if is_positive timeout then p ∷ rest else []

pub ever_seen : ℕ → ℕ → List Pass → Bool
ever_seen shell p [] = false
ever_seen shell p (q ∷ passes) = sees shell q.seen p q.seen.names || ever_seen shell p passes

or_false : (b : Bool) → b ≡ (b || false)
or_false true = refl
or_false false = refl

or_assoc : (a b c : Bool) → (a || b || c) ≡ (a || (b || c))
or_assoc true b c = refl
or_assoc false b c = refl

-- A pass is made, or the loop ends with what it has.
made_or_ended :
    (b : Bool) (rest : Option (List ℕ)) (found r : List ℕ)
    → (if b then rest else some found) ≡ some r
    → ((b ≡ true) × (rest ≡ some r)) ⊎ ((b ≡ false) × (found ≡ r))
made_or_ended true rest found r h = inl (refl, h)
made_or_ended false rest found r h = inr (refl, cc)

module _ (shell : ℕ) (end_time : ℤ) where
  timed_loop-Distinct :
      (timeout : ℤ) (found r : List ℕ) (passes : List Pass)
      → timed_loop shell end_time timeout found passes ≡ some r
      → Distinct found
      → Distinct r
  unfolding timed_loop
  timed_loop-Distinct timeout found r [] h d =
      elim (made_or_ended (is_positive timeout) none found r h) [
        | inl (e, q) ↦ absurd (cc (q))
        | inr (e, q) ↦ subst Distinct q d
      ]
  timed_loop-Distinct timeout found r (p ∷ passes) h d =
      let grown = scan shell p.seen p.seen.names found in
      elim (made_or_ended (is_positive timeout)
        (timed_loop shell end_time (end_time -ℤ p.now) grown passes) found r h) [
          | inl (e, q) ↦
              timed_loop-Distinct (end_time -ℤ p.now) grown r passes q
                (Distinct-scan shell p.seen p.seen.names found d)
          | inr (e, q) ↦ subst Distinct q d
        ]

  timed_loop-member :
      (p : ℕ) (timeout : ℤ) (found r : List ℕ) (passes : List Pass)
      → timed_loop shell end_time timeout found passes ≡ some r
      → member p r ≡ (member p found || ever_seen shell p (passes_made end_time timeout passes))
  unfolding timed_loop passes_made ever_seen
  timed_loop-member p timeout found r [] h =
      elim (made_or_ended (is_positive timeout) none found r h) [
        | inl (e, q) ↦ absurd (cc (q))
        | inr (e, q) ↦ ap (member p) (sym q) ∙ or_false (member p found)
      ]
  timed_loop-member p timeout found r (q ∷ passes) h =
      let grown = scan shell q.seen q.seen.names found in
      let made = passes_made end_time (end_time -ℤ q.now) passes in
      elim (made_or_ended (is_positive timeout)
        (timed_loop shell end_time (end_time -ℤ q.now) grown passes) found r h) [
          | inl (e, l) ↦ rw e (
              timed_loop-member p (end_time -ℤ q.now) grown r passes l
              ∙ ap (λ b. b || ever_seen shell p made)
                  (member-scan shell p q.seen q.seen.names found)
              ∙ or_assoc (member p found) (sees shell q.seen p q.seen.names)
                  (ever_seen shell p made))
          | inr (e, l) ↦ rw e (ap (member p) (sym l) ∙ or_false (member p found))
        ]

compared :
    (r found : List ℕ) (n : ℕ)
    → some (compare_counts (length r) (pos n) r) ≡ some (ok found)
    → (r ≡ found) × (length found ≡ n)
compared r found n k = elim (Bool-cases (length r == n)) [
  | inl e ↦
      let same : r ≡ found = cc (rw e at k) in (same, ap length (sym same) ∙ ground (arith, e))
  | inr e ↦ absurd (cc (rw e at k))
]

-- Where the timed check passes, the list that it returns has the expected length, no process twice,
-- and exactly the processes that one of the passes made before the timeout saw as children of the
-- shell.
pub count_children_timeout_lem :
    (shell : ℕ) (default : Option ℤ) (expected timeout t start : ℤ) (passes : List Pass)
    (found : List ℕ)
    → effective default timeout ≡ some t
    → count_children_timeout shell default expected (some timeout) start passes ≡ some (ok found)
    → (expected ≡ pos (length found))
      × Distinct found
      × ((p : ℕ) → member p found ≡ ever_seen shell p (passes_made (start +ℤ t) t passes))
unfolding count_children_timeout
count_children_timeout_lem shell default (negsuc n) timeout t start passes found e h = absurd cc
count_children_timeout_lem shell default (pos n) timeout t start passes found e h =
    go (timed_loop shell (start +ℤ t) t [] passes) refl (rw e at h)
  where
    go :
        (o : Option (List ℕ))
        → timed_loop shell (start +ℤ t) t [] passes ≡ o
        → judge (pos n) o ≡ some (ok found)
        → (pos n ≡ pos (length found))
          × Distinct found
          × ((p : ℕ) → member p found ≡ ever_seen shell p (passes_made (start +ℤ t) t passes))
    go none q k = absurd cc
    go (some r) q k =
        let (same, len) = compared r found n k in
        let q' : timed_loop shell (start +ℤ t) t [] passes ≡ some found = q ∙ ap some same in
        (
          ap pos (sym len),
          timed_loop-Distinct shell (start +ℤ t) t [] found passes q' tt,
          λ p. timed_loop-member shell (start +ℤ t) p t [] found passes q',
        )
