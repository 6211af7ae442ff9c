-- ===== src/Driver/Options.antt =====
-- tests/stdriver.py, lines 33-103: the command line, as the (option, argument) pairs and the rest that
-- `getopt` returns, and the checks before any list is read.
pub mod Ready
use cush.Prelude.{
  ℕ, ◌≡◌, refl, Bool, true, false, not, ◌&&◌, ◌||◌, Option, none, some, List, [], ◌∷◌, ◌++◌,
  if◌then◌else◌,
}
use cush.Prelude.Int.{ℤ, pos}
use cush.Prelude.Text.{Text, codes, contains, text_eq}
use cush.Driver.Result.{Halt, Result, assertion_error, exit, halted, ok, ◌>>=◌, >>=-eq-ok}

-- The module's variables that the options set. `args` are the list files.
pub record Options : Type 0 where
  pub verbose : Bool
  pub output_spec_file : Text
  pub plugin_directory : Text
  pub test_base : Text
  pub testfilter : Option Text
  pub list_tests : Bool
  pub print_json : Bool
  pub args : List Text

-- The defaults; the test base is the directory of the script.
abbrev pub defaults : Text → List Text → Options
defaults script_dir args = record {
  verbose = false;
  output_spec_file = codes "./output_spec.py";
  plugin_directory = [];
  test_base = script_dir;
  testfilter = none;
  list_tests = false;
  print_json = false;
  args = args;
}

-- args += ["%s/%s" % (test_base, file)]
abbrev add_list : Options → Text → Options
add_list s file = record s { args = s.args ++ (s.test_base ++ codes "/" ++ file) ∷ [] }

-- `o in (a, b)` compares with each; `o in ("-l")` asks whether `o` is a part of the text.
abbrev is_one_of : Text → Text → Text → Bool
is_one_of o a b = text_eq o a || text_eq o b

unfoldable pub apply_option : Options → Text → Text → Result Options
unfolding contains
apply_option s o a =
    if text_eq o (codes "-v")
    then ok (record s { verbose = true })
    else if is_one_of o (codes "-h") (codes "--help")
    then halted (exit (pos 0))
    else if is_one_of o (codes "-t") (codes "--test")
    then ok (record s { testfilter = some a })
    else if contains o (codes "-l")
    then ok (record s { list_tests = true })
    else if contains o (codes "-B")
    then ok (record s { test_base = a })
    else if contains o (codes "-m")
    then ok (add_list s (codes "milestone.tst"))
    else if contains o (codes "-b")
    then ok (add_list s (codes "basic.tst"))
    else if contains o (codes "-a")
    then ok (add_list s (codes "advanced.tst"))
    else if contains o (codes "-p")
    then ok (record s { plugin_directory = a })
    else if contains o (codes "-o")
    then ok (record s { output_spec_file = a })
    else if contains o (codes "-j")
    then ok (record s { print_json = true })
    else halted assertion_error

unfoldable pub apply_options : Options → List (Text × Text) → Result Options
apply_options s [] = ok s
apply_options s ((o, a) ∷ opts) = do s' ← apply_option s o a; apply_options s' opts

module _ (readable : Text → Bool) where
  -- if plugin_directory != "" and not os.access(plugin_directory, os.R_OK)
  abbrev pub check_plugin : Options → Result Options
  check_plugin s =
      if not (text_eq s.plugin_directory []) && not (readable s.plugin_directory)
      then halted (exit (pos 1))
      else ok (record s { plugin_directory = codes " -p " ++ s.plugin_directory })

  abbrev pub check_output_spec : Options → Result Options
  check_output_spec s = if not (readable s.output_spec_file) then halted (exit (pos 1)) else ok s

  -- if len(args) == 0
  abbrev pub check_args : Options → List Text → Result Options
  check_args s [] = halted (exit (pos 1))
  check_args s (a ∷ args) = ok s

  -- Everything up to the loop over the list files.
  unfoldable pub configure : Text → List (Text × Text) → List Text → Result Options
  unfolding apply_options apply_option
  configure script_dir opts args = do
    s ← apply_options (defaults script_dir args) opts
    s ← check_plugin s
    s ← check_output_spec s
    check_args s s.args

apply_option-outputspec :
    (s : Options) (a : Text) → apply_option s (codes "--outputspec") a ≡ halted assertion_error
unfolding apply_option
apply_option-outputspec s a = refl

-- `getopt` is told to take `--outputspec`, and no branch handles it: where the options in front of it
-- pass, the script ends in an AssertionError, whatever the argument and the options behind it.
pub apply_options-outputspec :
    (s s' : Options) (earlier later : List (Text × Text)) (a : Text)
    → apply_options s earlier ≡ ok s'
    → apply_options s (earlier ++ (codes "--outputspec", a) ∷ later) ≡ halted assertion_error
unfolding apply_options
apply_options-outputspec s s' [] later a h = rw (apply_option-outputspec s a)
apply_options-outputspec s s' ((o, b) ∷ earlier) later a h =
    let (t, p, q) = >>=-eq-ok (apply_option s o b) (λ u. apply_options u earlier) h in
    rw p (apply_options-outputspec t s' earlier later a q)
