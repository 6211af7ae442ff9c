-- ===== src/Testutils/Order.antt =====
-- Texts that stand in another one after the other.
use mathlib.Core.Path.{subst}
use cush.Prelude.{
  ℕ, zero, suc, ◌+◌, ◌≤◌, ◌<◌, ◌≡◌, refl, sym, ap, ◌∙◌, inl, inr, Bool, true, false, ◌&&◌, ◌==◌,
  List, [], ◌∷◌, ◌++◌, arith, Bool-cases, ltb, append_assoc, drop, length, length-append,
  length-drop,
}
use cush.Prelude.Text.{Text, starts_with}
use cush.Pexpect.Searcher.Find.{NoneBefore}

-- The texts stand in the data in this order, with anything in front of, between and behind them.
abbrev pub InOrder : List Text → Text → Type 0
InOrder [] data_read = Unit
InOrder (t ∷ ts) data_read =
    (gap : Text) × (rest : Text) × (gap ++ (t ++ rest) ≡ data_read) × InOrder ts rest

InOrder-append : (ts : List Text) (z d : Text) → InOrder ts d → InOrder ts (z ++ d)
InOrder-append [] z d h = tt
InOrder-append (t ∷ ts) z d (g, r, e, k) =
    (z ++ g, r, append_assoc z g (t ++ r) ∙ ap (λ x. z ++ x) e, k)

pub starts_with-append : (t u : Text) → starts_with t (t ++ u) ≡ true
starts_with-append [] u = refl
starts_with-append (c ∷ t) u =
    let same : (c == c) ≡ true = ground arith in rw same (starts_with-append t u)

-- A text that fits into the front part begins there.
starts_with-front :
    (t x y : Text) → length t ≤ length x → starts_with t (x ++ y) ≡ true → starts_with t x ≡ true
starts_with-front [] x y l h = refl
starts_with-front (c ∷ t) [] y l h = absurd (omega arith)
starts_with-front (c ∷ t) (d ∷ x) y l h = elim (Bool-cases (c == d)) [
  | inl e ↦ rw e (starts_with-front t x y (omega arith) (both (c == d) (starts_with t (x ++ y)) h))
  | inr e ↦ absurd (first (c == d) (starts_with t (x ++ y)) h e)
]
  where
    both : (a b : Bool) → (a && b) ≡ true → b ≡ true
    both true b k = k
    both false b k = absurd cc

    first : (a b : Bool) → (a && b) ≡ true → a ≡ false → ⊥
    first true b k e = absurd cc
    first false b k e = absurd cc

drop-append : (n : ℕ) (x y : Text) → n ≤ length x → drop n (x ++ y) ≡ drop n x ++ y
drop-append zero x y l = refl
drop-append (suc n) [] y l = absurd (omega arith)
drop-append (suc n) (c ∷ x) y l = drop-append n x y (omega arith)

pub drop-length : (x y : Text) → drop (length x) (x ++ y) ≡ y
drop-length [] y = refl
drop-length (c ∷ x) y = drop-length x y

-- Of two ways to cut a text, the later part of the earlier cut ends with that of the later cut.
cut_later :
    (p q p' q' : Text) → p ++ q ≡ p' ++ q' → length p ≤ length p' → (z : Text) × (q ≡ z ++ q')
cut_later [] q p' q' e l = (p', e)
cut_later (c ∷ p) q [] q' e l = absurd (omega arith)
cut_later (c ∷ p) q (d ∷ p') q' e l = cut_later p q p' q' (tail_eq e) (omega (arith, l))
  where
    tail_eq : c ∷ (p ++ q) ≡ d ∷ (p' ++ q') → p ++ q ≡ p' ++ q'
    tail_eq h = cc

-- Where a text stands, the first place is not later.
not_later :
    (t b rest y : Text) (g r : Text)
    → NoneBefore t (b ++ (t ++ rest)) (length b)
    → g ++ (t ++ r) ≡ (b ++ (t ++ rest)) ++ y
    → length b ≤ length g
not_later t b rest y g r non e = elim (Bool-cases (ltb (length g) (length b))) [
  | inl l ↦ absurd (early (ground (arith, l)))
  | inr l ↦ ground (arith, l)
]
  where
    early : length g < length b → ⊥
    early l =
        let x : Text = b ++ (t ++ rest) in
        let size : length x ≡ length b + (length t + length rest) =
          length-append b (t ++ rest) ∙ ap (λ n. length b + n) (length-append t rest) in
        let found : starts_with t (drop (length g) x ++ y) ≡ true =
          ap (starts_with t) (sym (drop-append (length g) x y (omega (arith, size, l))))
          ∙ ap (λ d. starts_with t (drop (length g) d)) (sym e)
          ∙ ap (starts_with t) (drop-length g (t ++ r))
          ∙ starts_with-append t r in
        let here : starts_with t (drop (length g) x) ≡ true =
          starts_with-front t (drop (length g) x) y
            (omega (arith, size, l, length-drop (length g) x)) found in
        let there : starts_with t (drop (length g) x) ≡ false = non (length g) l in cc

-- It is enough to look for the first place of each text behind that of the one before.
pub InOrder-first :
    (t : Text) (ts : List Text) (b rest y all : Text)
    → NoneBefore t (b ++ (t ++ rest)) (length b)
    → b ++ (t ++ (rest ++ y)) ≡ all
    → InOrder (t ∷ ts) all
    → InOrder ts (rest ++ y)
InOrder-first t ts b rest y all non e (g, r, p, k) =
    let same : (b ++ (t ++ rest)) ++ y ≡ all =
      append_assoc b (t ++ rest) y ∙ ap (λ x. b ++ x) (append_assoc t rest y) ∙ e in
    let late : length b ≤ length g = not_later t b rest y g r non (p ∙ sym same) in
    let (z, q) =
      cut_later (b ++ t) (rest ++ y) (g ++ t) r
        (append_assoc b t (rest ++ y) ∙ e ∙ sym p ∙ sym (append_assoc g t r))
        (omega (arith, length-append b t, length-append g t, late)) in
    subst (InOrder ts) (sym q) (InOrder-append ts z r k)
