-- ===== src/Driver/Tests.antt =====
-- tests/stdriver.py at concrete inputs.
use cush.Prelude.{◌≡◌, ◌≤◌, ◌↔◌, refl, true, false, Option, none, some, List, [], ◌∷◌, ◌++◌, map}
use cush.Prelude.Text.{Text, codes, contains}
use cush.Driver.Result.{assertion_error, halted, ok}
use cush.Driver.Options.{
  Options, apply_option, apply_options-outputspec, apply_options, configure, defaults,
}
use cush.Driver.Options.Ready.{
  Checked, Flag, base, basic, chosen, configure-Checked, plugin, spec, written,
}
use cush.Driver.Listing.{
  Sets, TestSet, add_line, full_testlist, match_header, match_test, no_set, passes, read_files,
  read_lines, sets,
}
use cush.Driver.Listing.Filter.{FilteredSets, read_files-FilteredSets}
use cush.Driver.Listing.RoundTrip.{Group, list_file, read_lines-list_file, set_of}
use cush.Driver.Grades.{Graded, Report, TestResult, report_sets, score}
use cush.Driver.Grades.Points.{
  AllPassed, all_points, last_score, lookup_score, passed_points, report_sets_lem, score_points,
  sheet,
}

abbrev here : Text
here = codes "/home/cs3214/tests"

test_apply_options-outputspec :
    apply_options
      (defaults here [])
      ((codes "-v", []) ∷ (codes "--outputspec", codes "eshoutput.py") ∷ (codes "-b", []) ∷ [])
    ≡ halted assertion_error
unfolding apply_options apply_option contains
test_apply_options-outputspec =
    apply_options-outputspec (defaults here []) (record (defaults here []) { verbose = true })
      ((codes "-v", []) ∷ []) ((codes "-b", []) ∷ []) (codes "eshoutput.py") refl

abbrev basic_options : List (Text × Text)
basic_options = (codes "-b", []) ∷ (codes "-p", codes "plugins") ∷ []

abbrev basic_ready : Options
basic_ready = record (defaults here []) {
  args = codes "/home/cs3214/tests/basic.tst" ∷ [];
  plugin_directory = codes " -p plugins";
}

test_configure : configure (λ t. true) here basic_options [] ≡ ok basic_ready
unfolding configure apply_options apply_option contains
test_configure = refl

abbrev flags : List Flag
flags =
    base (codes "/t")
    ∷ spec (codes "a.py")
    ∷ basic
    ∷ plugin (codes "plugins")
    ∷ spec (codes "b.py")
    ∷ []

configure-Checked_example :
    Checked
      (λ t. true)
      here
      (chosen (defaults here (codes "my.tst" ∷ [])) flags)
      (configure (λ t. true) here (map written flags) (codes "my.tst" ∷ []))
configure-Checked_example = configure-Checked (λ t. true) here flags (codes "my.tst" ∷ [])

test_chosen :
    ((chosen (defaults here (codes "my.tst" ∷ [])) flags).output_spec_file ≡ codes "b.py")
    × ((chosen (defaults here (codes "my.tst" ∷ [])) flags).args
        ≡ codes "my.tst" ∷ codes "/t/basic.tst" ∷ [])
test_chosen = (refl, refl)

abbrev groups : List Group
groups =
    record {
      title = codes "A";
      entries =
          record { digits = codes "5"; script = codes "fg"; extra = [] }
          ∷ record { digits = codes "10"; script = codes "test_worth"; extra = codes " 10.py" }
          ∷ [];
    }
    ∷ record { title = codes "B"; entries = [] }
    ∷ []

groups-lines :
    list_file groups
    ≡ codes "= A\n" ∷ codes "5 fg\n" ∷ codes "10 test_worth 10.py\n" ∷ codes "= B\n" ∷ []
groups-lines = refl

read_lines-list_file_example :
    (r : Sets) × (read_lines none here no_set (list_file groups) ≡ ok r)
    × (full_testlist r ≡ map (set_of here) groups)
read_lines-list_file_example = read_lines-list_file here groups (
  (
    ((refl, tt), λ h. cc),
    (
      (((refl, tt), λ h. cc), ((refl, (refl, tt)), λ h. cc), tt),
      (
        (
          ((refl, (refl, tt)), λ h. cc),
          (
            (refl, (refl, (refl, (refl, (refl, (refl, (refl, (refl, (refl, (refl, tt)))))))))),
            λ h. cc,
          ),
          refl,
        ),
        tt,
      ),
    ),
  ),
  ((((refl, tt), λ h. cc), tt), tt),
)

abbrev open_basic : Text → Option (List Text)
open_basic file = some (list_file groups)

abbrev in_a : TestSet
in_a = record {
  name = codes "A";
  tests =
      record { points = 5; testname = codes "fg" }
      ∷ record { points = 10; testname = codes "test_worth" }
      ∷ [];
  dir = codes "./";
}

abbrev in_b : TestSet
in_b = record { name = codes "B"; tests = []; dir = codes "./" }

read_files-FilteredSets_example :
    (r : Sets) × (read_files open_basic
        (λ t. [])
        (some (codes "worth"))
        no_set
        (codes "my.tst" ∷ [])
      ≡ ok r)
    × FilteredSets (some (codes "worth")) (in_a ∷ in_b ∷ []) (full_testlist r)
unfolding read_files add_line match_header match_test passes
read_files-FilteredSets_example =
    read_files-FilteredSets (some (codes "worth")) open_basic (λ t. []) (sets (in_a ∷ []) in_b)
      (codes "my.tst" ∷ []) refl

abbrev results : List TestResult
results =
    record {
      points = 5;
      testname = codes "fg_test.py";
      child = record { status = 0; stdout = []; stderr = [] };
      passed = true;
    }
    ∷ record {
      points = 10;
      testname = codes "bg_test.py";
      child = record { status = 1; stdout = []; stderr = codes "TIMEOUT" };
      passed = false;
    }
    ∷ []

abbrev job_results : Graded
job_results = record { name = codes "Job Control"; results = results }

test_score : score job_results ≡ record { points = 5; max = 15 }
unfolding score
test_score = refl

score_points_example :
    ((score job_results).points ≡ passed_points results)
    × ((score job_results).max ≡ all_points results)
    × ((score job_results).points ≤ (score job_results).max)
    × (((score job_results).points ≡ (score job_results).max) ↔ AllPassed results)
score_points_example = score_points job_results

abbrev no_report : Report
no_report = record { lines = []; sum_points = [] }

report_sets_lem_example :
    ((report_sets true no_report (job_results ∷ [])).lines ≡ [] ++ sheet (job_results ∷ []))
    × (lookup_score (codes "Job Control") (report_sets true no_report (job_results ∷ [])).sum_points
        ≡ last_score (codes "Job Control") none (job_results ∷ []))
unfolding lookup_score
report_sets_lem_example = report_sets_lem true no_report (job_results ∷ []) (codes "Job Control")
