-- ===== src/Pexpect/Pattern.antt =====
-- pexpect-dpty/pexpect.py: `compile_pattern_list`, `searcher_re`, `expect_list` and `expect`. The module
-- `re` is a parameter.
pub mod Earliest
pub mod Found
pub mod Live
pub mod Literal
pub mod Plain
mod Tests
use cush.Prelude.{
  ℕ, ◌+◌, ◌-◌, Bool, true, false, Option, none, some, List, [], ◌∷◌, ltb, ◌==◌, if◌then◌else◌,
  length,
}
use cush.Prelude.Int.{ℤ, pos, negsuc}
use cush.Prelude.Text.{Text}
use cush.Pexpect.Searcher.{Hit, Item, eof, init, item, timeout}
use cush.Pexpect.Expect.{Outcome, Round, Search, Spawn, expect_loop}

-- What the object uses of `re`: `re.compile` under DOTALL, which is told whether to ignore case and
-- gives nothing where it raises an error, the method `search` of a compiled pattern, and the methods
-- `start` and `end` of a match.
pub record Re (R M : Type 0) : Type 0 where
  pub compile : Bool → Text → Option R
  pub search : R → Text → ℕ → Option M
  pub start : M → ℕ
  pub end : M → ℕ

-- An element of a pattern list, and the list: None, a list, or one pattern.
pub data Pattern (R : Type 0) : Type 0 where
  source : Text → Pattern R
  eof_type timeout_type : Pattern R
  compiled : R → Pattern R
  other_type : Pattern R

pub data Patterns (R : Type 0) : Type 0 where
  no_patterns : Patterns R
  one : Pattern R → Patterns R
  several : List (Pattern R) → Patterns R

pub data Compiled (A : Type 0) : Type 0 where
  compiles : A → Compiled A
  type_error regex_error : Compiled A

infixl 5 ◌>>=◌
abbrev pub ◌>>=◌ : {A B : Type 0} → Compiled A → (A → Compiled B) → Compiled B
compiles a >>= f = f a
type_error >>= f = type_error
regex_error >>= f = regex_error

-- The variables of the loop of `searcher_re.search`.
pub record BestMatch (M : Type 0) : Type 0 where
  pub first_match : ℕ
  pub best : Option (ℕ × M)

-- 0, or max(0, len(buffer)-searchwindowsize)
abbrev pub search_start : ℕ → Option ℤ → ℕ
search_start len none = 0
search_start len (some (pos n)) = len - n
search_start len (some (negsuc n)) = len + (n + 1)

module _ {R M : Type 0} (re : Re R M) where
  abbrev pub compiled_source : Option R → Compiled (Item R)
  compiled_source none = regex_error
  compiled_source (some r) = compiles (item r)

  abbrev pub compile_pattern : Bool → Pattern R → Compiled (Item R)
  compile_pattern ignorecase (source p) = compiled_source (re.compile ignorecase p)
  compile_pattern ignorecase eof_type = compiles eof
  compile_pattern ignorecase timeout_type = compiles timeout
  compile_pattern ignorecase (compiled r) = compiles (item r)
  compile_pattern ignorecase other_type = type_error

  unfoldable pub compile_patterns : Bool → List (Pattern R) → Compiled (List (Item R))
  compile_patterns ignorecase [] = compiles []
  compile_patterns ignorecase (p ∷ ps) = do
    i ← compile_pattern ignorecase p
    is ← compile_patterns ignorecase ps
    compiles (i ∷ is)

  unfoldable pub compile_pattern_list : Bool → Patterns R → Compiled (List (Item R))
  unfolding compile_patterns
  compile_pattern_list ignorecase no_patterns = compiles []
  compile_pattern_list ignorecase (one p) = compile_patterns ignorecase (p ∷ [])
  compile_pattern_list ignorecase (several ps) = compile_patterns ignorecase ps

  abbrev pub improve_match : BestMatch M → ℕ → Option M → BestMatch M
  improve_match b index none = b
  improve_match b index (some m) =
      if ltb (re.start m) b.first_match
      then record { first_match = re.start m; best = some (index, m) }
      else b

  unfoldable pub search_each : Text → ℕ → List (ℕ × R) → BestMatch M → BestMatch M
  search_each buffer searchstart [] b = b
  search_each buffer searchstart ((index, s) ∷ rest) b =
      search_each buffer searchstart rest (improve_match b index (re.search s buffer searchstart))

  abbrev pub match_hit : ℕ → Option (ℕ × M) → Option (Hit M)
  match_hit first none = none
  match_hit first (some (index, m)) =
      some (record { index = index; start = first; end = re.end m; match = m })

  abbrev pub finish_match : ℕ → BestMatch M → Option (Hit M)
  finish_match absurd_match b =
      if b.first_match == absurd_match then none else match_hit b.first_match b.best

  -- searcher_re.search
  unfoldable pub search_re : List (ℕ × R) → Text → ℕ → Option ℤ → Option (Hit M)
  unfolding search_each
  search_re searches buffer freshlen searchwindowsize =
      let absurd_match = length buffer in
      finish_match absurd_match (
        search_each buffer (search_start (length buffer) searchwindowsize) searches
          (record { first_match = absurd_match; best = none }))

  -- The object that `searcher_re(pattern_list)` makes.
  abbrev pub searcher_re : List (Item R) → Search M
  searcher_re patterns = record {
    search = search_re (init patterns).searches;
    eof_index = (init patterns).eof_index;
    timeout_index = (init patterns).timeout_index;
  }

  unfoldable pub expect_list :
      List (Item R) → Spawn M → Option ℤ → Option ℤ → ℤ → List Round → Outcome × Spawn M
  unfolding expect_loop
  expect_list pattern_list = expect_loop (searcher_re pattern_list)

  unfoldable pub expect :
      Bool
      → Patterns R
      → Spawn M
      → Option ℤ
      → Option ℤ
      → ℤ
      → List Round
      → Compiled (Outcome × Spawn M)
  unfolding compile_pattern_list expect_list
  expect ignorecase pattern self limit searchwindowsize now rounds = do
    compiled_pattern_list ← compile_pattern_list ignorecase pattern
    compiles (expect_list compiled_pattern_list self limit searchwindowsize now rounds)
