-- ===== src/Pexpect/Searcher/Find.antt =====
-- `str.find`, as `searcher_string.search` uses it.
use cush.Prelude.{
  ℕ, zero, suc, ◌+◌, ◌-◌, ◌≤◌, ◌<◌, ◌≡◌, inl, inr, true, false, Option, none, some, [], ◌∷◌, arith,
  length, drop, Bool-cases,
}
use cush.Prelude.Text.{Text, starts_with}
use cush.Pexpect.Searcher.{first_at}

-- `sub` stands in `t` at position `n`.
abbrev pub Occurs : Text → Text → ℕ → Type 0
Occurs sub t n = starts_with sub (drop n t) ≡ true

-- `sub` stands nowhere in `t` before position `k`.
abbrev pub NoneBefore : Text → Text → ℕ → Type 0
NoneBefore sub t k = (n : ℕ) → n < k → starts_with sub (drop n t) ≡ false

-- What a scan from position `i` tells of `sub` in `t`.
abbrev pub Scanned : ℕ → Text → Text → Option ℕ → Type 0
Scanned i sub t none = (n : ℕ) → starts_with sub (drop n t) ≡ false
Scanned i sub t (some m) =
    (i ≤ m) × Occurs sub t (m - i) × NoneBefore sub t (m - i) × (m - i ≤ length t)

empty_suffix :
    (sub : Text) (n : ℕ) → starts_with sub [] ≡ false → starts_with sub (drop n []) ≡ false
empty_suffix sub zero h = h
empty_suffix sub (suc n) h = h

NoneBefore-suc :
    (sub t : Text) (c k : ℕ)
    → starts_with sub (c ∷ t) ≡ false
    → NoneBefore sub t k
    → NoneBefore sub (c ∷ t) (suc k)
NoneBefore-suc sub t c k h f zero l = h
NoneBefore-suc sub t c k h f (suc n) l = f n (omega arith)

Scanned-cons :
    (i c : ℕ) (sub t : Text) (r : Option ℕ)
    → starts_with sub (c ∷ t) ≡ false
    → Scanned (i + 1) sub t r
    → Scanned i sub (c ∷ t) r
Scanned-cons i c sub t none h s = go
  where
    go : (n : ℕ) → starts_with sub (drop n (c ∷ t)) ≡ false
    go zero = h
    go (suc n) = s n
Scanned-cons i c sub t (some m) h (le, occ, non, len) =
    let e : m - i ≡ suc (m - (i + 1)) = omega arith in
    (omega arith, rw e occ, rw e (NoneBefore-suc sub t c (m - (i + 1)) h non), rw e (omega arith))

pub first_at-Scanned : (i : ℕ) (sub t : Text) → Scanned i sub t (first_at i sub t)
unfolding first_at
first_at-Scanned i sub [] = elim (Bool-cases (starts_with sub [])) [
  | inl e ↦
      rw e
        (omega arith, rw (the_zero i) e, rw (the_zero i) (λ n l. absurd (omega arith)), omega arith)
  | inr e ↦ rw e (λ n. empty_suffix sub n e)
]
  where
    the_zero : (i : ℕ) → i - i ≡ 0
    the_zero i = omega arith
first_at-Scanned i sub (c ∷ t) = elim (Bool-cases (starts_with sub (c ∷ t))) [
  | inl e ↦
      rw e
        (omega arith, rw (the_zero i) e, rw (the_zero i) (λ n l. absurd (omega arith)), omega arith)
  | inr e ↦
      rw e (Scanned-cons i c sub t (first_at (i + 1) sub t) e (first_at-Scanned (i + 1) sub t))
]
  where
    the_zero : (i : ℕ) → i - i ≡ 0
    the_zero i = omega arith
