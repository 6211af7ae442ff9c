-- ===== src/Pexpect/Pattern/Plain.antt =====
-- A module `re` that knows no special characters, for the tests.
use cush.Prelude.{ℕ, ◌+◌, ◌≡◌, refl, Option, none, some, length}
use cush.Prelude.Int.{pos}
use cush.Prelude.Text.{Text}
use cush.Pexpect.Searcher.{find}
use cush.Pexpect.Pattern.{Re}
use cush.Pexpect.Pattern.Literal.{IsLiteral, span_at, span_of}

-- Patterns that are taken as they stand.
abbrev span_from : ℕ → Option ℕ → Option (ℕ × ℕ)
span_from len none = none
span_from len (some n) = some (n, n + len)

abbrev pub literal_re : Re Text (ℕ × ℕ)
literal_re = record {
  compile = λ ignorecase p. some p;
  search = λ r b from. span_from (length r) (find b r (pos from));
  start = λ m. m.0;
  end = λ m. m.1;
}

pub literal_re-IsLiteral : (s : Text) → IsLiteral literal_re s s
literal_re-IsLiteral s b from = go (find b s (pos from))
  where
    go : (o : Option ℕ) → span_of literal_re (span_from (length s) o) ≡ span_at literal_re s o
    go none = refl
    go (some n) = refl
