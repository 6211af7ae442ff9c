-- ===== src/Pexpect/Pattern/Tests.antt =====
-- `searcher_re` and `expect` at concrete inputs, with the pattern `.` alone.
use cush.Prelude.{
  ℕ, ◌+◌, ◌≡◌, refl, inl, inr, false, none, some, List, [], ◌∷◌, arith, ltb, if◌then◌else◌, length,
  Bool-cases,
}
use cush.Prelude.Int.{pos, negsuc}
use cush.Prelude.Text.{codes, text_eq}
use cush.Pexpect.Searcher.{eof, item}
use cush.Pexpect.Expect.{Outcome, Round, Spawn, chunk, nothing}
use cush.Pexpect.Expect.Account.{AccountedRun}
use cush.Pexpect.Pattern.{
  Patterns, Re, compile_pattern_list, compiles, eof_type, expect, regex_error, search_re, several,
  source,
}
use cush.Pexpect.Pattern.Earliest.{EarliestMatch, MatchesWithin}
use cush.Pexpect.Pattern.Live.{Returns, expect-Returns}
use cush.Pexpect.Searcher.{init}
use cush.Pexpect.Pattern.Found.{expect-AccountedRun, search_re-EarliestMatch}

-- The only pattern that compiles is the dot, which matches the next character, whatever it is.
abbrev dot_only : Re (Unit {0}) ℕ
dot_only = record {
  compile = λ ignorecase p. if text_eq p (codes ".") then some tt else none;
  search = λ r buffer from. if ltb from (length buffer) then some from else none;
  start = λ m. m;
  end = λ m. m + 1;
}

dot_only-MatchesWithin : MatchesWithin dot_only
dot_only-MatchesWithin r buffer from = elim (Bool-cases (ltb from (length buffer))) [
  | inl e ↦ rw e (ground arith, (ground arith, ground arith))
  | inr e ↦ rw e tt
]

abbrev any_char_or_end : Patterns (Unit {0})
any_char_or_end = several (source (codes ".") ∷ eof_type ∷ [])

abbrev object : Spawn ℕ
object = record {
  timeout = some (pos 30000);
  searchwindowsize = none;
  buffer = [];
  before = none;
  after = nothing;
  match = nothing;
  match_index = none;
}

abbrev one_chunk : List Round
one_chunk = record { read = chunk (codes "$ "); now = pos 10 } ∷ []

test_compile_pattern_list :
    compile_pattern_list dot_only false (several (source (codes "(") ∷ [])) ≡ regex_error
unfolding compile_pattern_list
test_compile_pattern_list = refl

search_re-EarliestMatch_example :
    EarliestMatch dot_only
      (codes "$ ")
      0
      ((0, tt) ∷ [])
      (search_re dot_only ((0, tt) ∷ []) (codes "$ ") 2 none)
search_re-EarliestMatch_example =
    search_re-EarliestMatch dot_only ((0, tt) ∷ []) (codes "$ ") 2 none

test_expect-AccountedRun :
    (r : Outcome × Spawn ℕ) × (expect dot_only false any_char_or_end object
        (some (negsuc 999))
        none
        (pos 0)
        one_chunk
      ≡ compiles r)
    × AccountedRun object [] one_chunk r
unfolding compile_pattern_list
test_expect-AccountedRun =
    expect-AccountedRun dot_only dot_only-MatchesWithin false any_char_or_end (item tt ∷ eof ∷ [])
      object (some (negsuc 999)) none (pos 0) one_chunk refl

abbrev patient : Spawn ℕ
patient = record object { timeout = none }

expect-Returns_example :
    (r : Outcome × Spawn ℕ) × (expect dot_only false any_char_or_end patient
        (some (negsuc 999))
        none
        (pos 0)
        one_chunk
      ≡ compiles r)
    × Returns r
unfolding compile_pattern_list init
expect-Returns_example =
    expect-Returns dot_only false any_char_or_end (item tt ∷ eof ∷ []) patient (some (negsuc 999))
      none (pos 0) one_chunk refl refl refl (refl, tt)
      (record {
        earlier = [];
        index = 0;
        regex = tt;
        later = [];
        splits = refl;
        match = 0;
        found = refl;
        in_range = omega arith;
      })
