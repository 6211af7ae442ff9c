-- ===== src/Driver/Grades/Points.antt =====
-- The points of tests/stdriver.py: the totals of a set, the grade sheet and the JSON scores.
use cush.Prelude.{
  ℕ, ◌+◌, ◌≤◌, ◌≡◌, ◌↔◌, refl, sym, ap, ◌∙◌, inl, inr, Bool, true, false, not, Option, none, some,
  List, [], ◌∷◌, ◌++◌, arith, append_assoc, append-nil, All, Bool-cases, if◌then◌else◌,
}
use cush.Prelude.Text.{Text, text_eq, text_eq_iff}
use cush.Driver.Grades.{
  Graded, Line, Report, Score, TestResult, earned, grade_tests, report_set, report_sets, score,
  set_lines, set_score,
}

-- The points of the tests of a list, and of those that passed.
pub all_points : List TestResult → ℕ
all_points [] = 0
all_points (r ∷ results) = r.points + all_points results

pub passed_points : List TestResult → ℕ
passed_points [] = 0
passed_points (r ∷ results) = (if r.passed then r.points else 0) + passed_points results

grade_tests-points :
    (s : Score) (results : List TestResult)
    → ((grade_tests s results).points ≡ s.points + passed_points results)
      × ((grade_tests s results).max ≡ s.max + all_points results)
unfolding grade_tests all_points passed_points
grade_tests-points s [] = (omega arith, omega arith)
grade_tests-points s (r ∷ results) =
    let t : Score = record { points = s.points + earned r; max = s.max + r.points } in
    let e : earned r ≡ (if r.passed then r.points else 0) = flip r.passed r.points in
    (
      omega (arith, (grade_tests-points t results).0, e),
      omega (arith, (grade_tests-points t results).1),
    )
  where
    flip : (b : Bool) (n : ℕ) → (if not b then 0 else n) ≡ (if b then n else 0)
    flip true n = refl
    flip false n = refl

-- Every test with points has passed.
abbrev pub AllPassed : List TestResult → Type 0
AllPassed results = All (λ r. r.passed ≡ false → r.points ≡ 0) results

passed-le-all : (results : List TestResult) → passed_points results ≤ all_points results
unfolding all_points passed_points
passed-le-all [] = omega arith
passed-le-all (r ∷ results) = elim (Bool-cases r.passed) [
  | inl e ↦ rw e (omega (arith, passed-le-all results))
  | inr e ↦ rw e (omega (arith, passed-le-all results))
]

full-AllPassed :
    (results : List TestResult) → passed_points results ≡ all_points results → AllPassed results
unfolding all_points passed_points
full-AllPassed [] h = tt
full-AllPassed (r ∷ results) h =
    let le : passed_points results ≤ all_points results = passed-le-all results in
    let (now, later) = split r.passed r.points (passed_points results) (all_points results) le h in
    (now, full-AllPassed results later)
  where
    split :
        (b : Bool) (n p a : ℕ)
        → p ≤ a
        → (if b then n else 0) + p ≡ n + a
        → (b ≡ false → n ≡ 0) × (p ≡ a)
    split true n p a le e = (λ f. cc, omega arith)
    split false n p a le e = (λ f. omega arith, omega arith)

AllPassed-full :
    (results : List TestResult) → AllPassed results → passed_points results ≡ all_points results
unfolding all_points passed_points
AllPassed-full [] h = refl
AllPassed-full (r ∷ results) (p, h) = elim (Bool-cases r.passed) [
  | inl e ↦ rw e (omega (arith, AllPassed-full results h))
  | inr e ↦ rw e (omega (arith, AllPassed-full results h, p e))
]

-- The score of a set is the sum of the points of its passed tests, out of the sum of all its points:
-- it is never above that, and it is the whole exactly if no test that is worth a point has failed.
pub score_points :
    (g : Graded)
    → ((score g).points ≡ passed_points g.results)
      × ((score g).max ≡ all_points g.results)
      × ((score g).points ≤ (score g).max)
      × (((score g).points ≡ (score g).max) ↔ AllPassed g.results)
unfolding score
score_points g =
    let start : Score = record { points = 0; max = 0 } in
    let (p, m) = grade_tests-points start g.results in
    let p' : (grade_tests start g.results).points ≡ passed_points g.results = omega arith in
    let m' : (grade_tests start g.results).max ≡ all_points g.results = omega arith in
    (
      p',
      m',
      omega (arith, passed-le-all g.results),
      (
        λ h. full-AllPassed g.results (sym p' ∙ h ∙ m'),
        λ h. p' ∙ AllPassed-full g.results h ∙ sym m',
      ),
    )

-- sum_points.get(name)
unfoldable pub lookup_score : Text → List (Text × Score) → Option Score
lookup_score name [] = none
lookup_score name ((k, v) ∷ d) = if text_eq k name then some v else lookup_score name d

-- The score of the last set of this name, behind what is known.
pub last_score : Text → Option Score → List Graded → Option Score
last_score name found [] = found
last_score name found (g ∷ sets) =
    last_score name (if text_eq g.name name then some (score g) else found) sets

lookup-set_score :
    (d : List (Text × Score)) (name other : Text) (s : Score)
    → lookup_score other (set_score d name s)
      ≡ (if text_eq name other then some s else lookup_score other d)
unfolding lookup_score set_score
lookup-set_score [] name other s = refl
lookup-set_score ((k, v) ∷ d) name other s = ground (
  arith,
  text_eq_iff k name,
  text_eq_iff k other,
  text_eq_iff name other,
  lookup-set_score d name other s,
)

pub sheet : List Graded → List Line
sheet [] = []
sheet (g ∷ sets) = set_lines g ++ sheet sets

report_sets-lines :
    (print_json : Bool) (r : Report) (sets : List Graded)
    → (report_sets print_json r sets).lines ≡ r.lines ++ sheet sets
unfolding report_sets sheet
report_sets-lines print_json r [] = sym (append-nil r.lines)
report_sets-lines print_json r (g ∷ sets) =
    report_sets-lines print_json (report_set print_json r g) sets
    ∙ append_assoc r.lines (set_lines g) (sheet sets)

report_sets-scores :
    (r : Report) (sets : List Graded) (name : Text)
    → lookup_score name (report_sets true r sets).sum_points
      ≡ last_score name (lookup_score name r.sum_points) sets
unfolding report_sets last_score
report_sets-scores r [] name = refl
report_sets-scores r (g ∷ sets) name =
    report_sets-scores (report_set true r g) sets name
    ∙ ap (λ o. last_score name o sets) (lookup-set_score r.sum_points g.name name (score g))

report_sets-no_scores :
    (r : Report) (sets : List Graded) → (report_sets false r sets).sum_points ≡ r.sum_points
unfolding report_sets
report_sets-no_scores r [] = refl
report_sets-no_scores r (g ∷ sets) = report_sets-no_scores (report_set false r g) sets

-- The report prints the sheets of the sets in their order, whatever the options. Under `-j` the scores
-- hold for each name the score of the last set of that name, and without it they stay as they were.
pub report_sets_lem :
    (print_json : Bool) (r : Report) (sets : List Graded) (name : Text)
    → ((report_sets print_json r sets).lines ≡ r.lines ++ sheet sets)
      × (lookup_score name (report_sets print_json r sets).sum_points ≡ (
          if print_json
          then last_score name (lookup_score name r.sum_points) sets
          else lookup_score name r.sum_points))
report_sets_lem true r sets name = (report_sets-lines true r sets, report_sets-scores r sets name)
report_sets_lem false r sets name =
    (report_sets-lines false r sets, ap (lookup_score name) (report_sets-no_scores r sets))
