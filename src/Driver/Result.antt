-- ===== src/Driver/Result.antt =====
-- How tests/stdriver.py may end early: `sys.exit`, or an exception that nothing catches.
use cush.Prelude.{◌≡◌, refl}
use cush.Prelude.Int.{ℤ}

pub data Halt : Type 0 where
  exit : ℤ → Halt
  name_error assertion_error : Halt

-- What a step of the script comes to: it goes on with a value, or the script has ended.
pub data Result {ℓ} (Value : Type ℓ) : Type ℓ where
  halted : Halt → Result Value
  ok : Value → Result Value

module _ {ℓ κ} {Value : Type ℓ} {Next : Type κ} where
  -- The steps behind a step.
  infixl 5 ◌>>=◌
  abbrev pub ◌>>=◌ : Result Value → (Value → Result Next) → Result Next
  halted h >>= steps = halted h
  ok v >>= steps = steps v

  pub >>=-eq-ok :
      {end : Next} (step : Result Value) (steps : Value → Result Next)
      → (step >>= steps) ≡ ok end
      → (v : Value) × (step ≡ ok v) × (steps v ≡ ok end)
  >>=-eq-ok (halted h) steps p = cc
  >>=-eq-ok (ok v) steps p = (v, refl, p)
