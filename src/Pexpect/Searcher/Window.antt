-- ===== src/Pexpect/Searcher/Window.antt =====
-- The `freshlen` argument of `searcher_string.search`, and the data that it leaves out.
use cush.Prelude.{
  ℕ, zero, suc, ◌+◌, ◌-◌, ◌≤◌, ◌<◌, ◌≡◌, refl, sym, inl, inr, true, false, none, List, [], ◌∷◌,
  arith, length, drop, take, All, Bool-cases, leb,
}
use cush.Prelude.Int.{minus}
use cush.Prelude.Text.{Text, starts_with, contains}
use cush.Pexpect.Searcher.{Best, first_at, find, search_over, search_string, slice_start}
use cush.Pexpect.Searcher.Find.{NoneBefore}

pub contains-drop :
    (sub t : Text) (n : ℕ) → starts_with sub (drop n t) ≡ true → contains sub t ≡ true
unfolding contains
contains-drop sub [] zero h = h
contains-drop sub [] (suc n) h = h
contains-drop sub (c ∷ t) zero h = ground arith
contains-drop sub (c ∷ t) (suc n) h = ground (arith, contains-drop sub t n h)

starts_with-take :
    (sub t : Text) (k : ℕ)
    → starts_with sub t ≡ true
    → length sub ≤ k
    → starts_with sub (take k t) ≡ true
starts_with-take [] t k h l = refl
starts_with-take (x ∷ sub) [] k h l = cc
starts_with-take (x ∷ sub) (y ∷ t) zero h l = absurd (omega arith)
starts_with-take (x ∷ sub) (y ∷ t) (suc k) h l = ground (arith, starts_with-take sub t k)

starts_with-drop-take :
    (sub t : Text) (n k : ℕ)
    → starts_with sub (drop n t) ≡ true
    → n + length sub ≤ k
    → starts_with sub (drop n (take k t)) ≡ true
starts_with-drop-take sub t zero k h l = starts_with-take sub t k h (omega arith)
starts_with-drop-take sub t (suc n) zero h l = absurd (omega arith)
starts_with-drop-take sub [] (suc n) (suc k) h l = h
starts_with-drop-take sub (c ∷ t) (suc n) (suc k) h l =
    starts_with-drop-take sub t n k h (omega arith)

-- A text that is absent from the first `k` characters begins at no position from which it would
-- fit into them.
none_at_old :
    (sub t : Text) (k n : ℕ)
    → contains sub (take k t) ≡ false
    → n + length sub ≤ k
    → starts_with sub (drop n t) ≡ false
none_at_old sub t k n h l = elim (Bool-cases (starts_with sub (drop n t))) [
  | inl e ↦ cc (h, contains-drop sub (take k t) n (starts_with-drop-take sub t n k e l))
  | inr e ↦ e
]

first_at_skip :
    (m i : ℕ) (sub t : Text)
    → NoneBefore sub t m
    → m ≤ length t
    → first_at i sub t ≡ first_at (i + m) sub (drop m t)
unfolding first_at
first_at_skip zero i sub t h l = let e : i ≡ i + 0 = omega arith in rw (← e)
first_at_skip (suc m) i sub [] h l = absurd (omega arith)
first_at_skip (suc m) i sub (c ∷ t) h l =
    let e : i + suc m ≡ i + 1 + m = omega arith in
    rw (e, h 0 (omega arith))
      (first_at_skip m (i + 1) sub t (λ n lt. h (suc n) (omega arith)) (omega arith))

start-le : (len n : ℕ) → slice_start len (minus n) ≤ len
start-le len zero = omega arith
start-le len (suc n) = omega arith

start_fits : (len n i : ℕ) → i < slice_start len (minus n) → i + n < len
start_fits len zero i h = absurd (omega arith)
start_fits len (suc n) i h = omega arith

-- A search from the back finds what a scan of the whole text finds, if nothing is skipped.
find-minus :
    (buffer sub : Text) (n : ℕ)
    → NoneBefore sub buffer (slice_start (length buffer) (minus n))
    → slice_start (length buffer) (minus n) ≤ length buffer
    → find buffer sub (minus n) ≡ first_at 0 sub buffer
unfolding find
find-minus buffer sub n h l =
    let start = slice_start (length buffer) (minus n) in
    let e : 0 + start ≡ start = omega arith in
    let inside : leb start (length buffer) ≡ true = ground arith in
    rw inside (sym (rw e at (first_at_skip start 0 sub buffer h l)))

pub find-all :
    (buffer sub : Text)
    → find buffer sub (minus (length buffer + length sub)) ≡ first_at 0 sub buffer
find-all buffer sub =
    let n = length buffer + length sub in
    find-minus buffer sub n (λ i lt. absurd (omega (arith, start_fits (length buffer) n i lt)))
      (start-le (length buffer) n)

module _ (buffer : Text) (freshlen : ℕ) where
  -- The data that was searched before.
  abbrev pub old_data : Text
  old_data = take (length buffer - freshlen) buffer

  find-fresh :
      (sub : Text)
      → contains sub old_data ≡ false
      → find buffer sub (minus (freshlen + length sub)) ≡ first_at 0 sub buffer
  find-fresh sub absent =
      let n = freshlen + length sub in
      find-minus buffer sub n
        (λ i lt.
          none_at_old sub buffer (length buffer - freshlen) i absent
            (omega (arith, start_fits (length buffer) n i lt)))
        (start-le (length buffer) n)

  search_over-fresh :
      (strings : List (ℕ × Text)) (b : Best)
      → All (λ s. contains s.1 old_data ≡ false) strings
      → search_over buffer freshlen none strings b
        ≡ search_over buffer (length buffer) none strings b
  unfolding search_over
  search_over-fresh [] b absent = refl
  search_over-fresh ((index, s) ∷ rest) b (a, absent) =
      rw (find-fresh s a, find-all buffer s) (search_over-fresh rest _ absent)

-- With no search window, a search that looks only at the fresh characters (and at the last old ones
-- that a match may begin with) gives the result of a search of the whole buffer, provided that no
-- string of the searcher stands within the old characters.
pub search_string-fresh :
    (strings : List (ℕ × Text)) (buffer : Text) (freshlen : ℕ)
    → All (λ s. contains s.1 (old_data buffer freshlen) ≡ false) strings
    → search_string strings buffer freshlen none ≡ search_string strings buffer (length buffer) none
unfolding search_string
search_string-fresh strings buffer freshlen absent =
    rw (search_over-fresh buffer freshlen strings _ absent)
