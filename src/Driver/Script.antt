-- ===== src/Driver/Script.antt =====
-- tests/stdriver.py as a whole: the steps in the order of the script.
use cush.Prelude.{Bool, List, [], Option, if◌then◌else◌, map}
use cush.Prelude.Text.{Text}
use cush.Driver.Result.{Result, ok, ◌>>=◌}
use cush.Driver.Options.{Options, configure}
use cush.Driver.Listing.{TestSet, full_testlist, no_set, read_files}
use cush.Driver.Grades.{Child, Line, Report, report_sets, run_set, verbose_lines}

-- What the script uses of the system.
pub record System : Type 0 where
  pub script_dir : Text
  pub readable : Text → Bool
  pub open_file : Text → Option (List Text)
  pub dirname : Text → Text
  pub run : Text → Text → Text → Child

-- How a run of the script ends: it halts, it prints the list of the tests and exits, or it grades.
pub data Ending : Type 0 where
  listed : List TestSet → Ending
  graded : Report → List Line → Ending

module _ (system : System) where
  abbrev pub grade_all : Options → List TestSet → Ending
  grade_all s testlist =
      let sets = map (run_set system.run s.output_spec_file s.plugin_directory) testlist in
      graded (report_sets s.print_json (record { lines = []; sum_points = [] }) sets)
        (if s.verbose then verbose_lines sets else [])

  unfoldable pub script : List (Text × Text) → List Text → Result Ending
  script opts args = do
    s ← configure system.readable system.script_dir opts args
    testlist ← read_files system.open_file system.dirname s.testfilter no_set s.args
    ok (
        if s.list_tests
        then listed (full_testlist testlist)
        else grade_all s (full_testlist testlist))
