-- ===== src/Pexpect/Reading/Tests.antt =====
-- The echo flag and the lines of a child, at concrete inputs.
use cush.Prelude.{ℕ, ◌≡◌, refl, true, false, Option, none, some, List, [], ◌∷◌, arith}
use cush.Prelude.Int.{ℤ, pos}
use cush.Prelude.Text.{Text, codes}
use cush.Pexpect.Expect.{Spawn, nothing}
use cush.Pexpect.Pattern.{eof_type}
use cush.Pexpect.Reading.{Flags, getecho, getecho-setecho, setecho}
use cush.Pexpect.Reading.Lines.{gathered, readlines}
use cush.Pexpect.Reading.Split.{line_end, split_lines}
use cush.Pexpect.Pattern.Plain.{literal_re, literal_re-IsLiteral}
use cush.Pexpect.Expect.Feed.{feed}
use cush.Pexpect.Reading.Readlines.{readlines-split_lines}

abbrev all_on : Flags
all_on bit = true

test_getecho :
    (getecho 3 (setecho 3 false all_on) ≡ false)
    × (getecho 1 (setecho 3 false all_on) ≡ getecho 1 all_on)
test_getecho = getecho-setecho 3 false all_on 1 refl

abbrev object : Spawn (ℕ × ℕ)
object = record {
  timeout = none;
  searchwindowsize = none;
  buffer = codes "a";
  before = none;
  after = nothing;
  match = nothing;
  match_index = none;
}

abbrev chunks : List (Option Text × ℤ)
chunks = (some (codes "b\r"), pos 1) ∷ (some (codes "\nc\r\n\r\nd"), pos 2) ∷ (none, pos 3) ∷ []

test_split_lines :
    split_lines (codes "ab\r\nc\r\n\r\nd")
    ≡ codes "ab\r\n" ∷ codes "c\r\n" ∷ codes "\r\n" ∷ codes "d" ∷ []
unfolding split_lines
test_split_lines = refl

readlines-split_lines_example :
    (readlines literal_re false eof_type
      (λ n. [])
      (pos 0 ∷ pos 1 ∷ pos 2 ∷ pos 3 ∷ pos 4 ∷ [])
      object
      (feed chunks (pos 4 ∷ pos 5 ∷ []))).0
    ≡ gathered (split_lines (codes "ab\r\nc\r\n\r\nd"))
unfolding split_lines
readlines-split_lines_example =
    readlines-split_lines literal_re false (λ n. []) line_end refl (literal_re-IsLiteral line_end)
      (pos 0 ∷ pos 1 ∷ pos 2 ∷ pos 3 ∷ pos 4 ∷ []) object chunks (pos 4) (pos 5) [] refl
      (omega arith)
