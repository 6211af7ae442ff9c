-- ===== src/Pexpect/Searcher/Leftmost.antt =====
-- `searcher_string.search` on a buffer that it searches whole: the position and the string of a hit.
use cush.Prelude.{
  ℕ, ◌+◌, ◌-◌, ◌≤◌, ◌<◌, ◌≡◌, refl, sym, ap, ◌∙◌, inl, inr, false, Option, none, some, List, [],
  ◌∷◌, ◌++◌, arith, length, All, Bool-cases, ltb, ◌==◌, append_assoc, append-nil,
}
use mathlib.Core.Path.{subst}
use cush.Prelude.Text.{Text}
use cush.Pexpect.Searcher.{Best, Hit, improve, first_at, finish, search_over, search_string}
use cush.Pexpect.Searcher.Find.{Occurs, NoneBefore, Scanned, first_at-Scanned}
use cush.Pexpect.Searcher.Window.{find-all}

abbrev pub AbsentBefore : Text → ℕ → List (ℕ × Text) → Type 0
AbsentBefore buffer k strings = All (λ s. NoneBefore s.1 buffer k) strings

-- `(index, s)` is the first of the strings that occur at `n`, and none occurs before.
pub record IsFirst (strings : List (ℕ × Text)) (buffer : Text) (n index : ℕ) (s : Text)
    : Type 0 where
  pub earlier : List (ℕ × Text)
  pub later : List (ℕ × Text)
  pub splits : strings ≡ earlier ++ (index, s) ∷ later
  pub in_range : n < length buffer
  pub occurs : Occurs s buffer n
  pub none_before : NoneBefore s buffer n
  pub earlier_absent : AbsentBefore buffer (n + 1) earlier
  pub later_absent : AbsentBefore buffer n later

abbrev pub FirstMatch : List (ℕ × Text) → Text → Option (Hit Text) → Type 0
FirstMatch strings buffer none = AbsentBefore buffer (length buffer) strings
FirstMatch strings buffer (some h) =
    IsFirst strings buffer h.start h.index h.match × (h.end ≡ h.start + length h.match)

-- The invariant of the loop, for the strings that it has looked at.
abbrev BestSoFar : List (ℕ × Text) → Text → ℕ → Option (ℕ × Text) → Type 0
BestSoFar seen buffer first none =
    (first ≡ length buffer) × AbsentBefore buffer (length buffer) seen
BestSoFar seen buffer first (some (index, s)) = IsFirst seen buffer first index s

AbsentBefore-concat :
    (buffer : Text) (k : ℕ) (seen : List (ℕ × Text)) (s : ℕ × Text)
    → AbsentBefore buffer k seen
    → NoneBefore s.1 buffer k
    → AbsentBefore buffer k (seen ++ s ∷ [])
AbsentBefore-concat buffer k [] s a h = (h, tt)
AbsentBefore-concat buffer k (x ∷ seen) s (a, rest) h =
    (a, AbsentBefore-concat buffer k seen s rest h)

AbsentBefore-mono :
    (buffer : Text) (j k : ℕ) (seen : List (ℕ × Text))
    → j ≤ k
    → AbsentBefore buffer k seen
    → AbsentBefore buffer j seen
AbsentBefore-mono buffer j k [] l a = tt
AbsentBefore-mono buffer j k (x ∷ seen) l (a, rest) =
    (λ n h. a n (omega arith), AbsentBefore-mono buffer j k seen l rest)

module _ (buffer : Text) (seen : List (ℕ × Text)) (index : ℕ) (s : Text) where
  -- The string is better than everything so far.
  IsFirst-new :
      (n : ℕ)
      → n < length buffer
      → Occurs s buffer n
      → NoneBefore s buffer n
      → AbsentBefore buffer (n + 1) seen
      → IsFirst (seen ++ (index, s) ∷ []) buffer n index s
  IsFirst-new n l occ non absent = record {
    earlier = seen;
    later = [];
    splits = refl;
    in_range = l;
    occurs = occ;
    none_before = non;
    earlier_absent = absent;
    later_absent = tt;
  }

  -- The string is no better than what was found.
  IsFirst-concat :
      {n i : ℕ} {t : Text}
      → IsFirst seen buffer n i t
      → NoneBefore s buffer n
      → IsFirst (seen ++ (index, s) ∷ []) buffer n i t
  IsFirst-concat {n} {i} {t} f h = record {
    earlier = f.earlier;
    later = f.later ++ (index, s) ∷ [];
    splits =
        ap (λ l. l ++ (index, s) ∷ []) f.splits
        ∙ append_assoc f.earlier ((i, t) ∷ f.later) ((index, s) ∷ []);
    in_range = f.in_range;
    occurs = f.occurs;
    none_before = f.none_before;
    earlier_absent = f.earlier_absent;
    later_absent = AbsentBefore-concat buffer n f.later (index, s) f.later_absent h;
  }

AbsentBefore-append :
    (buffer : Text) (k : ℕ) (xs ys : List (ℕ × Text))
    → AbsentBefore buffer k xs
    → AbsentBefore buffer k ys
    → AbsentBefore buffer k (xs ++ ys)
AbsentBefore-append buffer k [] ys a b = b
AbsentBefore-append buffer k (x ∷ xs) ys (a, rest) b =
    (a, AbsentBefore-append buffer k xs ys rest b)

IsFirst-AbsentBefore :
    (seen : List (ℕ × Text)) (buffer : Text) {n i : ℕ} {t : Text}
    → IsFirst seen buffer n i t
    → AbsentBefore buffer n seen
IsFirst-AbsentBefore seen buffer {n} {i} {t} f = rw f.splits (
    AbsentBefore-append buffer n f.earlier ((i, t) ∷ f.later)
      (AbsentBefore-mono buffer n (n + 1) f.earlier (omega arith) f.earlier_absent)
      (f.none_before, f.later_absent))

module _ (buffer : Text) (seen : List (ℕ × Text)) (index : ℕ) (s : Text) where
  -- One round of the loop, on what `find` returned.
  improve-BestSoFar :
      (first : ℕ) (best : Option (ℕ × Text)) (r : Option ℕ)
      → BestSoFar seen buffer first best
      → Scanned 0 s buffer r
      → (let b : Best = improve (record { first_match = first; best = best }) index s r in
          BestSoFar (seen ++ (index, s) ∷ []) buffer b.first_match b.best)
  improve-BestSoFar first none none (e, a) sc =
      (e, AbsentBefore-concat buffer (length buffer) seen (index, s) a (λ n l. sc n))
  improve-BestSoFar first (some (i, t)) none f sc =
      IsFirst-concat buffer seen index s f (λ n l. sc n)
  improve-BestSoFar first none (some n) (e, a) (le, occ, non, len) =
      let z : n - 0 ≡ n = omega arith in
      elim (Bool-cases (ltb n first)) [
        | inl lt ↦ rw lt (
            IsFirst-new buffer seen index s n (ground arith) (rw z at occ) (rw z at non)
              (AbsentBefore-mono buffer (n + 1) (length buffer) seen (ground arith) a))
        | inr ge ↦ rw ge (
          e,
          AbsentBefore-concat buffer (length buffer) seen (index, s) a
              (λ m l. non m (ground arith)),
        )
      ]
  improve-BestSoFar first (some (i, t)) (some n) f (le, occ, non, len) =
      let z : n - 0 ≡ n = omega arith in
      let inside : first < length buffer = f.in_range in
      elim (Bool-cases (ltb n first)) [
        | inl lt ↦ rw lt (
            IsFirst-new buffer seen index s n (ground arith) (rw z at occ) (rw z at non) (
              AbsentBefore-mono buffer (n + 1) first seen (ground arith)
                (IsFirst-AbsentBefore seen buffer f)))
        | inr ge ↦ rw ge (IsFirst-concat buffer seen index s f (λ m l. non m (ground arith)))
      ]

abbrev Loop : List (ℕ × Text) → Text → Best → Type 0
Loop seen buffer b = BestSoFar seen buffer b.first_match b.best

search_over-BestSoFar :
    (buffer : Text) (seen strings : List (ℕ × Text)) (b : Best)
    → Loop seen buffer b
    → Loop (seen ++ strings) buffer (search_over buffer (length buffer) none strings b)
unfolding search_over
search_over-BestSoFar buffer seen [] b h = rw append-nil h
search_over-BestSoFar buffer seen ((index, s) ∷ rest) b h =
    let found : Option ℕ = first_at 0 s buffer in
    let ih : Loop (seen ++ (index, s) ∷ [] ++ rest) buffer
        (search_over buffer (length buffer) none rest (improve b index s found)) =
      search_over-BestSoFar buffer (seen ++ (index, s) ∷ []) rest (improve b index s found) (
        improve-BestSoFar buffer seen index s b.first_match b.best found h
          (first_at-Scanned 0 s buffer)) in
    subst
      (λ o.
        Loop (seen ++ (index, s) ∷ rest) buffer
          (search_over buffer (length buffer) none rest (improve b index s o)))
      (sym (find-all buffer s))
      (subst
        (λ l.
          Loop l buffer (search_over buffer (length buffer) none rest (improve b index s found)))
        (append_assoc seen ((index, s) ∷ []) rest) ih)

finish-FirstMatch :
    (strings : List (ℕ × Text)) (buffer : Text) (first : ℕ) (best : Option (ℕ × Text))
    → BestSoFar strings buffer first best
    → FirstMatch strings buffer
        (finish (length buffer) (record { first_match = first; best = best }))
finish-FirstMatch strings buffer first none (e, a) = rw e (ground arith)
finish-FirstMatch strings buffer first (some (i, t)) f =
    let inside : first < length buffer = f.in_range in
    let e : (first == length buffer) ≡ false = ground arith in rw e (f, refl)

-- A search of the whole buffer finds the first position where one of the strings begins, and there
-- the string that comes first in the list; it finds nothing only if no string begins anywhere in
-- the buffer. The hit ends where the matched string ends.
pub search_string-FirstMatch :
    (strings : List (ℕ × Text)) (buffer : Text)
    → FirstMatch strings buffer (search_string strings buffer (length buffer) none)
unfolding search_string
search_string-FirstMatch strings buffer =
    let start : Best = record { first_match = length buffer; best = none } in
    let r : Best = search_over buffer (length buffer) none strings start in
    finish-FirstMatch strings buffer r.first_match r.best
      (search_over-BestSoFar buffer [] strings start (refl, tt))
