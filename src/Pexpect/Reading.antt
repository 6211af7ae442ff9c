-- ===== src/Pexpect/Reading.antt =====
-- pexpect-dpty/pexpect.py: `read`, `readline` and `next`, on top of `expect`, and the terminal's echo flag
-- (`getecho`, `setecho`).
mod Tests
pub mod Lines
pub mod Split
pub mod Feed
pub mod Readlines
use cush.Prelude.{
  ℕ, ◌≡◌, ◌≢◌, refl, Bool, true, false, Option, none, some, List, [], ◌∷◌, ◌++◌, ◌==◌, arith,
  if◌then◌else◌, Bool-cases, inl, inr,
}
use cush.Prelude.Int.{ℤ, negsuc, pos, ◌==ℤ◌, is_negative}
use cush.Prelude.Text.{Text, codes, text_eq}
use cush.Pexpect.Expect.{
  Exception, Outcome, Round, Slot, Spawn, default_timeout, nothing, raised, returned, value,
  waiting,
}
use cush.Pexpect.Pattern.{
  Compiled, Pattern, Patterns, Re, compiled, compiles, expect, one, regex_error, several, source,
  type_error,
}

-- What a call gives: a value (the attributes may hold None or an exception type), an exception, a pattern
-- that does not compile, the end of an iteration, or no answer yet.
pub data Answer : Type 0 where
  gives : Slot Text → Answer
  raises : Exception → Answer
  bad_pattern stop_iteration no_answer : Answer

abbrev pub as_slot : Option Text → Slot Text
as_slot none = nothing
as_slot (some t) = value t

module _ {R M : Type 0} (re : Re R M) where
  -- `if index == 0: return first`, and else `return self.before`.
  abbrev pub pick : (Spawn M → Slot Text) → Outcome × Spawn M → Answer × Spawn M
  pick first (returned index, s) = (gives (if index == 0 then first s else as_slot s.before), s)
  pick first (raised e, s) = (raises e, s)
  pick first (waiting, s) = (no_answer, s)

  abbrev pub pick_compiled :
      Spawn M → (Spawn M → Slot Text) → Compiled (Outcome × Spawn M) → Answer × Spawn M
  pick_compiled self first (compiles r) = pick first r
  pick_compiled self first type_error = (bad_pattern, self)
  pick_compiled self first regex_error = (bad_pattern, self)

  abbrev pub whole : Spawn M → Slot Text
  whole s = as_slot s.before

  abbrev pub line_of : Option Text → Slot Text
  line_of none = nothing
  line_of (some t) = value (t ++ codes "\r\n")

  -- `delimiter` is EOF unless a user sets it; `size_pattern` is what re.compile gives for a size. The
  -- timeout and the search window of `expect` have their defaults.
  module _ (ignorecase : Bool) (delimiter : Pattern R) (size_pattern : ℤ → R) where
    unfoldable pub read : ℤ → Spawn M → ℤ → List Round → Answer × Spawn M
    unfolding expect
    read size self now rounds =
        if size ==ℤ pos 0
        then (gives (value []), self)
        else if is_negative size
        then pick_compiled self whole
            (expect re ignorecase (one delimiter) self (some default_timeout) none now rounds)
        else pick_compiled self (λ s. s.after)
            (expect re ignorecase (several (compiled (size_pattern size) ∷ delimiter ∷ [])) self
              (some default_timeout) none now rounds)

    unfoldable pub readline : ℤ → Spawn M → ℤ → List Round → Answer × Spawn M
    unfolding expect
    readline size self now rounds =
        if size ==ℤ pos 0
        then (gives (value []), self)
        else pick_compiled self (λ s. line_of s.before)
            (expect re ignorecase (several (source (codes "\r\n") ∷ delimiter ∷ [])) self
              (some default_timeout) none now rounds)

    -- if result == "": raise StopIteration
    abbrev pub end_iteration : Answer × Spawn M → Answer × Spawn M
    end_iteration (gives (value []), s) = (stop_iteration, s)
    end_iteration r = r

    unfoldable pub next : Spawn M → ℤ → List Round → Answer × Spawn M
    unfolding readline
    next self now rounds = end_iteration (readline (negsuc 0) self now rounds)

-- attr[3], as the set of its bits, and the number of the bit `termios.ECHO`.
abbrev pub Flags : Type 0
Flags = ℕ → Bool

unfoldable pub getecho : ℕ → Flags → Bool
getecho echo attr = attr echo

unfoldable pub setecho : ℕ → Bool → Flags → Flags
setecho echo state attr = λ bit. if bit == echo then state else attr bit

-- Behind `setecho` the echo is what was asked for, and every other flag is as it was.
pub getecho-setecho :
    (echo : ℕ) (state : Bool) (attr : Flags) (bit : ℕ)
    → (bit == echo) ≡ false
    → (getecho echo (setecho echo state attr) ≡ state)
      × (getecho bit (setecho echo state attr) ≡ getecho bit attr)
unfolding getecho setecho
getecho-setecho echo state attr bit h =
    let same : (echo == echo) ≡ true = ground arith in (rw same refl, rw h refl)
