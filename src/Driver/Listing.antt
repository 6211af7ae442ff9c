-- ===== src/Driver/Listing.antt =====
-- tests/stdriver.py, lines 105-147: the list files, read into test sets.
pub mod RoundTrip
pub mod Filter
use cush.Prelude.{
  ℕ, Bool, true, false, not, ◌&&◌, ◌||◌, Option, none, some, List, [], ◌∷◌, ◌++◌, ◌==◌,
  if◌then◌else◌, map,
}
use cush.Prelude.Int.{ℤ, negsuc}
use cush.Prelude.Text.{Text, codes, contains, decimal_from, is_digit, is_space, span, text_eq}
use cush.Driver.Result.{Halt, Result, exit, halted, name_error, ok, ◌>>=◌}

-- A test: its points and the name of its script.
pub record Test : Type 0 where
  pub points : ℕ
  pub testname : Text

pub record TestSet : Type 0 where
  pub name : Text
  pub tests : List Test
  pub dir : Text

abbrev pub is_newline : ℕ → Bool
is_newline c = c == b'\n'

-- The first group of re.match("^= (.+)", line).
abbrev pub name_group : Text × Text → Option Text
name_group ([], rest) = none
name_group (c ∷ run, rest) = some (c ∷ run)

unfoldable pub match_header : Text → Option Text
unfolding span
match_header (e ∷ b ∷ rest) =
    if e == b'=' && b == 32 then name_group (span (λ c. not (is_newline c)) rest) else none
match_header _ = none

-- The groups of re.match("(\d+)\s+(\S+)\s*", line), the first as a number: behind the digits there is
-- at least one blank, and the name is the run of other characters behind the blanks.
abbrev pub named : ℕ → Text × Text → Option Test
named points ([], rest) = none
named points (c ∷ run, rest) = some (record { points = points; testname = c ∷ run })

abbrev pub behind_blanks : ℕ → Text × Text → Option Test
behind_blanks points ([], rest) = none
behind_blanks points (c ∷ run, rest) = named points (span (λ d. not (is_space d)) rest)

abbrev pub behind_digits : Text × Text → Option Test
behind_digits ([], rest) = none
behind_digits (c ∷ run, rest) = behind_blanks (decimal_from 0 (c ∷ run)) (span is_space rest)

unfoldable pub match_test : Text → Option Test
unfolding span decimal_from
match_test line = behind_digits (span is_digit line)

-- not testfilter or testname.find(testfilter) != -1
unfoldable pub passes : Option Text → Text → Bool
unfolding contains
passes none testname = true
passes (some testfilter) testname = text_eq testfilter [] || contains testfilter testname

-- testset['tests'].append(...): `testset` is the last set of the list, if there is one.
abbrev pub append_test : TestSet → Test → TestSet
append_test s t = record s { tests = s.tests ++ t ∷ [] }

pub data Sets : Type 0 where
  no_set : Sets
  sets : List TestSet → TestSet → Sets

abbrev pub full_testlist : Sets → List TestSet
full_testlist no_set = []
full_testlist (sets earlier testset) = earlier ++ testset ∷ []

abbrev pub add_set : Sets → TestSet → Sets
add_set s new = sets (full_testlist s) new

abbrev pub add_test : Sets → Test → Result Sets
add_test no_set t = halted name_error
add_test (sets earlier testset) t = ok (sets earlier (append_test testset t))

-- The body of the loop over the lines of a file, on what the two patterns matched.
unfoldable pub add_line : Option Text → Text → Sets → Option Text → Option Test → Result Sets
add_line testfilter test_dir s (some name) t =
    ok (add_set s (record { name = name; tests = []; dir = test_dir }))
add_line testfilter test_dir s none none = ok s
add_line testfilter test_dir s none (some t) =
    if passes testfilter t.testname then add_test s t else ok s

unfoldable pub read_lines : Option Text → Text → Sets → List Text → Result Sets
unfolding match_header match_test
read_lines testfilter test_dir s [] = ok s
read_lines testfilter test_dir s (line ∷ lines) = do
  s' ← add_line testfilter test_dir s (match_header line) (match_test line)
  read_lines testfilter test_dir s' lines

-- `open_file` gives the lines of a list file, if it can be opened; `dirname` is `os.path.dirname`.
module _ (open_file : Text → Option (List Text)) (dirname : Text → Text) where
  -- if test_dir == "": './' else test_dir + '/'
  abbrev pub test_dir_of : Text → Text
  test_dir_of testlist_filename =
      let test_dir = dirname testlist_filename in
      if text_eq test_dir [] then codes "./" else test_dir ++ codes "/"

  abbrev pub read_opened : Option Text → Text → Sets → Option (List Text) → Result Sets
  read_opened testfilter test_dir s none = halted (exit (negsuc 0))
  read_opened testfilter test_dir s (some lines) = read_lines testfilter test_dir s lines

  unfoldable pub read_files : Option Text → Sets → List Text → Result Sets
  unfolding read_lines
  read_files testfilter s [] = ok s
  read_files testfilter s (file ∷ files) = do
    s' ← read_opened testfilter (test_dir_of file) s (open_file file)
    read_files testfilter s' files
