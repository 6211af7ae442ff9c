-- ===== src/Pexpect/Interact/Last.antt =====
-- `rfind` finds the last place of a text in another.
use cush.Prelude.{
  ℕ, zero, suc, ◌≤◌, ◌<◌, ◌≡◌, refl, Bool, true, false, Option, none, some, [], ◌∷◌, arith, length,
  drop,
}
use cush.Prelude.Text.{Text, starts_with}
use cush.Pexpect.Interact.{rfind, rfind_here}

-- Where the text stands last, or that it stands nowhere.
abbrev pub IsLast : Text → Text → Option ℕ → Type 0
IsLast sub t none = (n : ℕ) → starts_with sub (drop n t) ≡ false
IsLast sub t (some i) =
    (starts_with sub (drop i t) ≡ true)
    × ((n : ℕ) → i < n → n ≤ length t → starts_with sub (drop n t) ≡ false)

rfind_here-IsLast :
    (sub : Text) (c : ℕ) (t : Text) (b : Bool) (later : Option ℕ)
    → starts_with sub (c ∷ t) ≡ b
    → IsLast sub t later
    → IsLast sub (c ∷ t) (rfind_here b later)
rfind_here-IsLast sub c t b (some i) h (at, after) = (at, behind)
  where
    behind : (n : ℕ) → suc i < n → n ≤ length (c ∷ t) → starts_with sub (drop n (c ∷ t)) ≡ false
    behind zero l m = absurd (omega arith)
    behind (suc n) l m = after n (omega arith) (omega arith)
rfind_here-IsLast sub c t true none h absent = (h, behind)
  where
    behind : (n : ℕ) → 0 < n → n ≤ length (c ∷ t) → starts_with sub (drop n (c ∷ t)) ≡ false
    behind zero l m = absurd (omega arith)
    behind (suc n) l m = absent n
rfind_here-IsLast sub c t false none h absent = nowhere
  where
    nowhere : (n : ℕ) → starts_with sub (drop n (c ∷ t)) ≡ false
    nowhere zero = h
    nowhere (suc n) = absent n

-- `rfind` finds the last place, and nothing only where there is none.
pub rfind-IsLast : (sub t : Text) → IsLast sub t (rfind sub t)
unfolding rfind
rfind-IsLast [] [] = (refl, λ n l m. absurd (omega (arith, l, m)))
rfind-IsLast (x ∷ sub) [] = nowhere
  where
    nowhere : (n : ℕ) → starts_with (x ∷ sub) (drop n []) ≡ false
    nowhere zero = refl
    nowhere (suc n) = refl
rfind-IsLast sub (c ∷ t) =
    rfind_here-IsLast sub c t (starts_with sub (c ∷ t)) (rfind sub t) refl (rfind-IsLast sub t)
