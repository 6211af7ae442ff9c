-- ===== src/Testutils/Leaks.antt =====
-- tests/testutils.py: `assert_correct_fds`, on the names in the directory of the descriptors of a process.
use cush.Prelude.{
  ℕ, ◌+◌, ◌≡◌, refl, sym, ap, ◌∙◌, inl, inr, Bool, true, false, ◌==◌, if◌then◌else◌, Option, none,
  some, List, [], ◌∷◌, arith, Bool-cases, ltb,
}
use cush.Prelude.Text.{Text, codes, text_eq, text_eq_iff}
use cush.Testutils.{Tested, other_error, tested}

-- The order of Python on texts: a ≤ b.
unfoldable pub not_after : Text → Text → Bool
not_after [] b = true
not_after (x ∷ a) [] = false
not_after (x ∷ a) (y ∷ b) =
    let rest = not_after a b in if ltb x y then true else if x == y then rest else false

unfoldable pub insert_sorted : Text → List Text → List Text
insert_sorted x [] = x ∷ []
insert_sorted x (y ∷ ys) =
    let rest = insert_sorted x ys in if not_after x y then x ∷ y ∷ ys else y ∷ rest

unfoldable pub sorted : List Text → List Text
unfolding insert_sorted not_after
sorted [] = []
sorted (x ∷ xs) = insert_sorted x (sorted xs)

-- fds == list('012')
abbrev pub is_standard : List Text → Bool
is_standard (a ∷ b ∷ c ∷ []) =
    if text_eq a (codes "0")
    then if text_eq b (codes "1") then text_eq c (codes "2") else false
    else false
is_standard _ = false

-- Nothing stands for a directory that cannot be listed.
unfoldable pub assert_correct_fds : Option (List Text) → Tested (Unit {0})
unfolding sorted
assert_correct_fds none = other_error
assert_correct_fds (some names) = if is_standard (sorted names) then tested tt else other_error

-- How often a name is there.
unfoldable pub count : Text → List Text → ℕ
count x [] = 0
count x (y ∷ ys) = (if text_eq x y then 1 else 0) + count x ys

count-insert_sorted :
    (x y : Text) (ys : List Text) → count x (insert_sorted y ys) ≡ count x (y ∷ ys)
unfolding insert_sorted count
count-insert_sorted x y [] = refl
count-insert_sorted x y (z ∷ zs) = elim (Bool-cases (not_after y z)) [
  | inl e ↦ rw e refl
  | inr e ↦ rw e (omega (arith, count-insert_sorted x y zs))
]

count-sorted : (x : Text) (ys : List Text) → count x (sorted ys) ≡ count x ys
unfolding sorted count
count-sorted x [] = refl
count-sorted x (y ∷ ys) =
    count-insert_sorted x y (sorted ys)
    ∙ ap (λ n. (if text_eq x y then 1 else 0) + n) (count-sorted x ys)

abbrev standard : List Text
standard = codes "0" ∷ codes "1" ∷ codes "2" ∷ []

is_standard-standard : (l : List Text) → is_standard l ≡ true → l ≡ standard
is_standard-standard [] h = absurd cc
is_standard-standard (a ∷ []) h = absurd cc
is_standard-standard (a ∷ b ∷ []) h = absurd cc
is_standard-standard (a ∷ b ∷ c ∷ d ∷ l) h = absurd cc
is_standard-standard (a ∷ b ∷ c ∷ []) h =
    both (text_eq a (codes "0")) (text_eq b (codes "1")) (text_eq c (codes "2")) refl refl refl h
  where
    both :
        (p q r : Bool)
        → text_eq a (codes "0") ≡ p
        → text_eq b (codes "1") ≡ q
        → text_eq c (codes "2") ≡ r
        → (if p then if q then r else false else false) ≡ true
        → a ∷ b ∷ c ∷ [] ≡ standard
    both true true true e f g h =
        let e' : a ≡ codes "0" = (text_eq_iff a (codes "0")).0 e in
        let f' : b ≡ codes "1" = (text_eq_iff b (codes "1")).0 f in
        let g' : c ≡ codes "2" = (text_eq_iff c (codes "2")).0 g in cc
    both true true false e f g h = absurd cc
    both true false r e f g h = absurd cc
    both false q r e f g h = absurd cc

-- Where the check passes, the names are the three standard descriptors, in some order, and each is there once.
pub assert_correct_fds-count :
    (names : List Text) (x : Text)
    → assert_correct_fds (some names) ≡ tested tt
    → count x names ≡ count x standard
unfolding assert_correct_fds
assert_correct_fds-count names x h =
    sym (count-sorted x names)
    ∙ ap (count x) (is_standard-standard (sorted names) (go (is_standard (sorted names)) h))
  where
    go : (b : Bool) → (if b then tested tt else other_error) ≡ tested tt → b ≡ true
    go true k = refl
    go false k = absurd cc
