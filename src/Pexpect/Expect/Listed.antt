-- ===== src/Pexpect/Expect/Listed.antt =====
-- pexpect-dpty/pexpect.py: `EOF` and `TIMEOUT` behind the texts of a list for `expect_exact`.
use cush.Prelude.{List, [], ◌∷◌}
use cush.Prelude.Text.{Text}
use cush.Pexpect.Searcher.{Item, Searcher, eof, item, timeout}

abbrev pub texts : List Text → List (Item Text)
texts [] = []
texts (t ∷ ts) = item t ∷ texts ts

abbrev pub IsType : Item Text → Type 0
IsType eof = Unit
IsType timeout = Unit
IsType (item t) = ⊥
