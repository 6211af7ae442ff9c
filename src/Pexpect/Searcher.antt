-- ===== src/Pexpect/Searcher.antt =====
-- pexpect-dpty/pexpect.py: `searcher_string` and `searcher_re`. Where the source keeps -1 for "no
-- index", the model has `none`; offsets that count from the end stay negative integers.
pub mod Find
pub mod Window
pub mod Leftmost
pub mod Within
use cush.Prelude.{
  ℕ, ◌+◌, ◌-◌, Bool, true, false, Option, none, some, List, [], ◌∷◌, ◌++◌, leb, ltb, ◌==◌,
  if◌then◌else◌, length, drop,
}
use cush.Prelude.Int.{ℤ, pos, negsuc, minus, negate}
use cush.Prelude.Text.{Text, starts_with}

-- An entry of a pattern list: something to search for, or one of the two exception types.
pub data Item {ℓ} (A : Type ℓ) : Type ℓ where
  item : A → Item A
  eof : Item A
  timeout : Item A

-- What `__init__` makes of a pattern list, in both classes.
pub record Searcher {ℓ} (A : Type ℓ) : Type ℓ where
  pub eof_index : Option ℕ
  pub timeout_index : Option ℕ
  pub searches : List (ℕ × A)

-- What a successful `search` returns and sets.
pub record Hit {ℓ} (M : Type ℓ) : Type ℓ where
  pub index : ℕ
  pub start : ℕ
  pub end : ℕ
  pub match : M

module _ {ℓ} {A : Type ℓ} where
  -- One round of the loop over `zip(range(len(patterns)), patterns)`.
  abbrev pub add_item : Searcher A → ℕ → Item A → Searcher A
  add_item self n eof = record self { eof_index = some n }
  add_item self n timeout = record self { timeout_index = some n }
  add_item self n (item s) = record self { searches = self.searches ++ (n, s) ∷ [] }

  unfoldable pub add_items : Searcher A → ℕ → List (Item A) → Searcher A
  add_items self n [] = self
  add_items self n (p ∷ ps) = add_items (add_item self n p) (n + 1) ps

  unfoldable pub init : List (Item A) → Searcher A
  unfolding add_items
  init patterns =
      add_items (record { eof_index = none; timeout_index = none; searches = [] }) 0 patterns

-- The scan of `str.find` from position `i`, with `t` the text from there on.
pub first_at : ℕ → Text → Text → Option ℕ
first_at i sub [] = if starts_with sub [] then some i else none
first_at i sub (c ∷ t) = if starts_with sub (c ∷ t) then some i else first_at (i + 1) sub t

-- Where a slice that begins at `offset` begins, for a text of this length.
abbrev pub slice_start : ℕ → ℤ → ℕ
slice_start len (pos n) = n
slice_start len (negsuc n) = len - (n + 1)

-- buffer.find(sub, offset)
unfoldable pub find : Text → Text → ℤ → Option ℕ
unfolding first_at
find buffer sub offset =
    let start = slice_start (length buffer) offset in
    if leb start (length buffer) then first_at start sub (drop start buffer) else none

-- The variables of the loop of `searcher_string.search`.
pub record Best : Type 0 where
  pub first_match : ℕ
  pub best : Option (ℕ × Text)

-- Where the search for a string of this length begins.
abbrev pub search_offset : ℕ → Option ℤ → ℕ → ℤ
search_offset freshlen none len = minus (freshlen + len)
search_offset freshlen (some searchwindowsize) len = negate searchwindowsize

abbrev pub improve : Best → ℕ → Text → Option ℕ → Best
improve b index s none = b
improve b index s (some n) =
    if ltb n b.first_match then record { first_match = n; best = some (index, s) } else b

unfoldable pub search_over : Text → ℕ → Option ℤ → List (ℕ × Text) → Best → Best
search_over buffer freshlen window [] b = b
search_over buffer freshlen window ((index, s) ∷ rest) b =
    search_over buffer freshlen window rest
      (improve b index s (find buffer s (search_offset freshlen window (length s))))

abbrev pub string_hit : ℕ → Option (ℕ × Text) → Option (Hit Text)
string_hit first none = none
string_hit first (some (index, s)) =
    some (record { index = index; start = first; end = first + length s; match = s })

abbrev pub finish : ℕ → Best → Option (Hit Text)
finish absurd_match b =
    if b.first_match == absurd_match then none else string_hit b.first_match b.best

-- searcher_string.search
unfoldable pub search_string : List (ℕ × Text) → Text → ℕ → Option ℤ → Option (Hit Text)
unfolding search_over find
search_string strings buffer freshlen window =
    let absurd_match = length buffer in
    finish absurd_match (
      search_over buffer freshlen window strings
        (record { first_match = absurd_match; best = none }))
