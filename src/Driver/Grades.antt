-- ===== src/Driver/Grades.antt =====
-- tests/stdriver.py, lines 149-245: the runs of the tests, the grade sheet, the JSON scores and the
-- verbose report. What is printed is a list of lines, each kept with its values.
pub mod Points
use cush.Prelude.{ℕ, ◌+◌, Bool, true, false, not, List, [], ◌∷◌, ◌++◌, ◌==◌, if◌then◌else◌, map}
use cush.Prelude.Text.{Text, codes, text_eq}
use cush.Driver.Listing.{Test, TestSet}

-- A process that has run a test: its exit status, and the output that the pipes hold.
pub record Child : Type 0 where
  pub status : ℕ
  pub stdout : Text
  pub stderr : Text

-- (points, testname, child_process, test_passed)
pub record TestResult : Type 0 where
  pub points : ℕ
  pub testname : Text
  pub child : Child
  pub passed : Bool

-- A test set once its `tests` are replaced by the results.
pub record Graded : Type 0 where
  pub name : Text
  pub results : List TestResult

pub data Line : Type 0 where
  title : Text → Line
  ran : ℕ → Text → Bool → Line
  grade : Text → ℕ → ℕ → Line
  total : Text → ℕ → ℕ → Line
  output_of : Text → Text → Text → Line

-- sum_points[name]
pub record Score : Type 0 where
  pub points : ℕ
  pub max : ℕ

-- `run` is the child process of a script, given its whole path and the two arguments.
module _ (run : Text → Text → Text → Child) (output_spec_file plugin_directory : Text) where
  abbrev pub run_test : Text → Test → TestResult
  run_test dir t =
      let child = run (dir ++ t.testname) output_spec_file plugin_directory in
      record { points = t.points; testname = t.testname; child = child; passed = child.status == 0 }

  abbrev pub run_tests : Text → List Test → List TestResult
  run_tests dir [] = []
  run_tests dir (t ∷ tests) = run_test dir t ∷ run_tests dir tests

  abbrev pub run_set : TestSet → Graded
  run_set s = record { name = s.name; results = run_tests s.dir s.tests }

-- points_earned
abbrev pub earned : TestResult → ℕ
earned r = if not r.passed then 0 else r.points

-- The loop that adds up the points of a set: the score, and the lines of the grade sheet.
unfoldable pub grade_tests : Score → List TestResult → Score
grade_tests s [] = s
grade_tests s (r ∷ results) =
    grade_tests (record { points = s.points + earned r; max = s.max + r.points }) results

unfoldable pub score : Graded → Score
unfolding grade_tests
score g = grade_tests (record { points = 0; max = 0 }) g.results

abbrev pub ran_lines : List TestResult → List Line
ran_lines [] = []
ran_lines (r ∷ results) = ran r.points r.testname r.passed ∷ ran_lines results

abbrev pub grade_lines : List TestResult → List Line
grade_lines [] = []
grade_lines (r ∷ results) = grade r.testname (earned r) r.points ∷ grade_lines results

-- What is printed for a set.
unfoldable pub set_lines : Graded → List Line
unfolding score
set_lines g =
    let s = score g in
    title g.name
    ∷ (ran_lines g.results ++ (grade_lines g.results ++ total g.name s.points s.max ∷ []))

-- sum_points[testset['name']] = ..., on the dictionary in the order of its keys.
unfoldable pub set_score : List (Text × Score) → Text → Score → List (Text × Score)
set_score [] name s = (name, s) ∷ []
set_score ((k, v) ∷ d) name s =
    if text_eq k name then (name, s) ∷ d else (k, v) ∷ set_score d name s

-- What the loop over the sets prints, and the scores that it gathers under `-j`.
pub record Report : Type 0 where
  pub lines : List Line
  pub sum_points : List (Text × Score)

abbrev pub report_set : Bool → Report → Graded → Report
report_set print_json r g = record {
  lines = r.lines ++ set_lines g;
  sum_points = if print_json then set_score r.sum_points g.name (score g) else r.sum_points;
}

unfoldable pub report_sets : Bool → Report → List Graded → Report
report_sets print_json r [] = r
report_sets print_json r (g ∷ sets) = report_sets print_json (report_set print_json r g) sets

-- The block under `if verbose:`, for the tests of one set and of all.
abbrev pub failure_lines : List TestResult → List Line
failure_lines [] = []
failure_lines (r ∷ results) =
    if not r.passed
    then output_of r.testname r.child.stdout r.child.stderr ∷ failure_lines results
    else failure_lines results

unfoldable pub verbose_lines : List Graded → List Line
verbose_lines [] = []
verbose_lines (g ∷ sets) = failure_lines g.results ++ verbose_lines sets
