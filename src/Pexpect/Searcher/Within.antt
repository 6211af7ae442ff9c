-- ===== src/Pexpect/Searcher/Within.antt =====
-- The offsets of a hit of `searcher_string.search`.
use cush.Prelude.{
  ℕ, ◌+◌, ◌-◌, ◌≤◌, ◌≡◌, inl, inr, true, Option, none, some, List, [], ◌∷◌, arith, length, drop,
  Bool-cases, leb, ltb, ◌==◌, length-drop,
}
use cush.Prelude.Int.{ℤ}
use cush.Prelude.Text.{Text, starts_with}
use cush.Pexpect.Searcher.{
  Best, Hit, finish, find, improve, search_offset, search_over, search_string, slice_start,
}
use cush.Pexpect.Searcher.Find.{Scanned, first_at-Scanned}

pub starts_with-length : (s t : Text) → starts_with s t ≡ true → length s ≤ length t
starts_with-length [] t h = omega arith
starts_with-length (x ∷ s) [] h = cc
starts_with-length (x ∷ s) (y ∷ t) h = ground (arith, starts_with-length s t)

-- The text fits in at the position that was found.
abbrev Fits : Text → Text → Option ℕ → Type 0
Fits buffer s none = Unit
Fits buffer s (some n) = n + length s ≤ length buffer

Scanned-Fits :
    (buffer s : Text) (start : ℕ) (r : Option ℕ)
    → start ≤ length buffer
    → Scanned start s (drop start buffer) r
    → Fits buffer s r
Scanned-Fits buffer s start none l h = tt
Scanned-Fits buffer s start (some m) l (le, occ, non, len) = omega (
  arith,
  starts_with-length s (drop (m - start) (drop start buffer)) occ,
  length-drop (m - start) (drop start buffer),
  length-drop start buffer,
)

find-Fits : (buffer s : Text) (offset : ℤ) → Fits buffer s (find buffer s offset)
unfolding find
find-Fits buffer s offset =
    let start = slice_start (length buffer) offset in
    elim (Bool-cases (leb start (length buffer))) [
      | inl e ↦ rw e (
          Scanned-Fits buffer s start _ (ground arith)
            (first_at-Scanned start s (drop start buffer)))
      | inr e ↦ rw e tt
    ]

-- The match that the loop holds fits in.
abbrev BestFits : Text → ℕ → Option (ℕ × Text) → Type 0
BestFits buffer first none = Unit
BestFits buffer first (some (i, s)) = first + length s ≤ length buffer

improve-BestFits :
    (buffer : Text) (b : Best) (index : ℕ) (s : Text) (r : Option ℕ)
    → BestFits buffer b.first_match b.best
    → Fits buffer s r
    → (let c : Best = improve b index s r in BestFits buffer c.first_match c.best)
improve-BestFits buffer b index s none h f = h
improve-BestFits buffer b index s (some n) h f = elim (Bool-cases (ltb n b.first_match)) [
  | inl e ↦ rw e f
  | inr e ↦ rw e h
]

search_over-BestFits :
    (buffer : Text) (freshlen : ℕ) (window : Option ℤ) (strings : List (ℕ × Text)) (b : Best)
    → BestFits buffer b.first_match b.best
    → (let c : Best = search_over buffer freshlen window strings b in
        BestFits buffer c.first_match c.best)
unfolding search_over
search_over-BestFits buffer freshlen window [] b h = h
search_over-BestFits buffer freshlen window ((index, s) ∷ rest) b h =
    let offset = search_offset freshlen window (length s) in
    search_over-BestFits buffer freshlen window rest (improve b index s (find buffer s offset))
      (improve-BestFits buffer b index s (find buffer s offset) h (find-Fits buffer s offset))

abbrev pub HitWithin : Text → Option (Hit Text) → Type 0
HitWithin buffer none = Unit
HitWithin buffer (some h) = (h.start ≤ h.end) × (h.end ≤ length buffer)

finish-HitWithin :
    (buffer : Text) (first : ℕ) (best : Option (ℕ × Text))
    → BestFits buffer first best
    → HitWithin buffer (finish (length buffer) (record { first_match = first; best = best }))
finish-HitWithin buffer first none h = elim (Bool-cases (first == length buffer)) [
  | inl e ↦ rw e tt
  | inr e ↦ rw e tt
]
finish-HitWithin buffer first (some (i, s)) h = elim (Bool-cases (first == length buffer)) [
  | inl e ↦ rw e tt
  | inr e ↦ rw e (omega arith, h)
]

-- A hit ends within the buffer and not before it starts, for any search window and fresh length.
pub search_string-HitWithin :
    (strings : List (ℕ × Text)) (buffer : Text) (freshlen : ℕ) (window : Option ℤ)
    → HitWithin buffer (search_string strings buffer freshlen window)
unfolding search_string
search_string-HitWithin strings buffer freshlen window =
    let start : Best = record { first_match = length buffer; best = none } in
    let b : Best = search_over buffer freshlen window strings start in
    finish-HitWithin buffer b.first_match b.best
      (search_over-BestFits buffer freshlen window strings start tt)
