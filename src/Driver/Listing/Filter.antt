-- ===== src/Driver/Listing/Filter.antt =====
-- The `-t` option of tests/stdriver.py, over the loop that reads the list files.
use cush.Prelude.{
  ◌≡◌, refl, sym, ap, inl, inr, Option, none, some, List, [], ◌∷◌, ◌++◌, arith, map, Bool-cases,
  true, false, ◌||◌, ◌==◌, ◌∙◌, Bool, if◌then◌else◌,
}
use mathlib.Core.Path.{subst}
use mathlib.Core.List.{map-append}
use cush.Prelude.Text.{Text, contains, starts_with}
use cush.Driver.Result.{Result, halted, ok, >>=-eq-ok}
use cush.Driver.Listing.{
  Sets, Test, TestSet, add_line, add_test, full_testlist, match_header, match_test, no_set, passes,
  read_files, read_lines, read_opened, sets, test_dir_of,
}

-- A name that the filter lets through: there is none, or it is a part of the name.
abbrev pub IsChosen : Option Text → Text → Type 0
IsChosen none name = Unit
IsChosen (some part) name = (a : Text) × (b : Text) × (a ++ (part ++ b) ≡ name)

-- The second list is the first without the tests whose names are not chosen.
pub data Filtered (testfilter : Option Text) : List Test → List Test → Type 0 where
  end : Filtered testfilter [] []
  keeps :
      (t : Test) (ts us : List Test)
      → IsChosen testfilter t.testname
      → Filtered testfilter ts us
      → Filtered testfilter (t ∷ ts) (t ∷ us)
  leaves :
      (t : Test) (ts us : List Test)
      → ¬ IsChosen testfilter t.testname
      → Filtered testfilter ts us
      → Filtered testfilter (t ∷ ts) us

abbrev pub FilteredSets : Option Text → List TestSet → List TestSet → Type 0
FilteredSets testfilter [] [] = Unit
FilteredSets testfilter [] (u ∷ us) = ⊥
FilteredSets testfilter (s ∷ ss) [] = ⊥
FilteredSets testfilter (s ∷ ss) (u ∷ us) =
    (s.name ≡ u.name)
    × (s.dir ≡ u.dir)
    × Filtered testfilter s.tests u.tests
    × FilteredSets testfilter ss us

starts_with-part : (p t : Text) → starts_with p t ≡ true → (b : Text) × (p ++ b ≡ t)
starts_with-part [] t h = (t, refl)
starts_with-part (x ∷ p) [] h = absurd cc
starts_with-part (x ∷ p) (y ∷ t) h =
    let (b, e) = starts_with-part p t (ground (arith, h)) in
    let same : x ≡ y = ground (arith, h) in (b, cc)

part-starts_with : (p b : Text) → starts_with p (p ++ b) ≡ true
part-starts_with [] b = refl
part-starts_with (x ∷ p) b =
    let same : (x == x) ≡ true = ground arith in rw same (part-starts_with p b)

contains-part : (p t : Text) → contains p t ≡ true → (a : Text) × (b : Text) × (a ++ (p ++ b) ≡ t)
unfolding contains
contains-part p [] h = let (b, e) = starts_with-part p [] h in ([], b, e)
contains-part p (y ∷ t) h = elim (Bool-cases (starts_with p (y ∷ t))) [
  | inl e ↦ let (b, k) = starts_with-part p (y ∷ t) e in ([], b, k)
  | inr e ↦ let (a, b, k) = contains-part p t (rw e at h) in (y ∷ a, b, ap (◌∷◌ y) k)
]

part-contains : (p a b : Text) → contains p (a ++ (p ++ b)) ≡ true
unfolding contains
part-contains p [] b = front (p ++ b) (part-starts_with p b)
  where
    front : (t : Text) → starts_with p t ≡ true → contains p t ≡ true
    front [] h = h
    front (y ∷ t) h = rw (h, ◌||◌)
part-contains p (y ∷ a) b = later (starts_with p (y ∷ (a ++ (p ++ b)))) (part-contains p a b)
  where
    later :
        (c : Bool) → contains p (a ++ (p ++ b)) ≡ true → (c || contains p (a ++ (p ++ b))) ≡ true
    later true h = refl
    later false h = h

passes-IsChosen : (f : Option Text) (name : Text) → passes f name ≡ true → IsChosen f name
unfolding passes
passes-IsChosen none name h = tt
passes-IsChosen (some []) name h = ([], name, refl)
passes-IsChosen (some (c ∷ f)) name h = contains-part (c ∷ f) name h

passes-not-IsChosen : (f : Option Text) (name : Text) → passes f name ≡ false → ¬ IsChosen f name
unfolding passes
passes-not-IsChosen none name h k = absurd cc
passes-not-IsChosen (some []) name h k = absurd cc
passes-not-IsChosen (some (c ∷ f)) name h (a, b, e) =
    let there : contains (c ∷ f) name ≡ true =
      ap (contains (c ∷ f)) (sym e) ∙ part-contains (c ∷ f) a b in
    cc

module _ (testfilter : Option Text) where
  -- The tests whose names pass.
  abbrev pub only : List Test → List Test
  only [] = []
  only (t ∷ tests) = if passes testfilter t.testname then t ∷ only tests else only tests

  abbrev pub only_set : TestSet → TestSet
  only_set s = record s { tests = only s.tests }

  abbrev pub only_sets : Sets → Sets
  only_sets no_set = no_set
  only_sets (sets earlier testset) = sets (map only_set earlier) (only_set testset)

  only-Filtered : (tests : List Test) → Filtered testfilter tests (only tests)
  only-Filtered [] = end
  only-Filtered (t ∷ tests) = elim (Bool-cases (passes testfilter t.testname)) [
    | inl e ↦
        rw e (
          keeps t tests (only tests) (passes-IsChosen testfilter t.testname e)
            (only-Filtered tests))
    | inr e ↦ rw e (
        leaves t tests (only tests) (passes-not-IsChosen testfilter t.testname e)
          (only-Filtered tests))
  ]

  map-FilteredSets : (ss : List TestSet) → FilteredSets testfilter ss (map only_set ss)
  map-FilteredSets [] = tt
  map-FilteredSets (s ∷ ss) = (refl, refl, only-Filtered s.tests, map-FilteredSets ss)

  full_testlist-only_sets :
      (s : Sets) → full_testlist (only_sets s) ≡ map only_set (full_testlist s)
  full_testlist-only_sets no_set = refl
  full_testlist-only_sets (sets earlier testset) = sym (map-append only_set earlier (testset ∷ []))

  only-concat :
      (tests : List Test) (t : Test)
      → only (tests ++ t ∷ [])
        ≡ (if passes testfilter t.testname then only tests ++ t ∷ [] else only tests)
  only-concat [] t = refl
  only-concat (x ∷ tests) t = ground (arith, only-concat tests t)

  -- The second result is the first with the tests left out, where the first did not halt.
  abbrev Agrees : Result Sets → Result Sets → Type 0
  Agrees (ok s) r = r ≡ ok (only_sets s)
  Agrees (halted h) r = Unit

  add_test-Agrees :
      (s : Sets) (t : Test)
      → Agrees
          (add_test s t)
          (if passes testfilter t.testname then add_test (only_sets s) t else ok (only_sets s))
  add_test-Agrees no_set t = tt
  add_test-Agrees (sets earlier testset) t = elim (Bool-cases (passes testfilter t.testname)) [
    | inl e ↦ rw (e, only-concat testset.tests t, e)
    | inr e ↦ rw (e, only-concat testset.tests t, e)
  ]

  add_line-Agrees :
      (test_dir : Text) (s : Sets) (name : Option Text) (t : Option Test)
      → Agrees (add_line none test_dir s name t) (add_line testfilter test_dir (only_sets s) name t)
  unfolding add_line passes
  add_line-Agrees test_dir s (some name) t =
      ap (λ l. ok (sets l (record { name = name; tests = []; dir = test_dir })))
        (full_testlist-only_sets s)
  add_line-Agrees test_dir s none none = refl
  add_line-Agrees test_dir s none (some t) = add_test-Agrees s t

  pub read_lines-only :
      (test_dir : Text) (s s' : Sets) (lines : List Text)
      → read_lines none test_dir s lines ≡ ok s'
      → read_lines testfilter test_dir (only_sets s) lines ≡ ok (only_sets s')
  unfolding read_lines
  read_lines-only test_dir s s' [] h = cc
  read_lines-only test_dir s s' (line ∷ lines) h =
      let name = match_header line in
      let t = match_test line in
      let (u, p, q) =
        >>=-eq-ok (add_line none test_dir s name t) (λ u. read_lines none test_dir u lines) h in
      let p' : add_line testfilter test_dir (only_sets s) name t ≡ ok (only_sets u) =
        rw p at (add_line-Agrees test_dir s name t) in
      rw p' (read_lines-only test_dir u s' lines q)

  module _ (open_file : Text → Option (List Text)) (dirname : Text → Text) where
    read_opened-only :
        (test_dir : Text) (s s' : Sets) (lines : Option (List Text))
        → read_opened open_file dirname none test_dir s lines ≡ ok s'
        → read_opened open_file dirname testfilter test_dir (only_sets s) lines ≡ ok (only_sets s')
    read_opened-only test_dir s s' none h = cc
    read_opened-only test_dir s s' (some lines) h = read_lines-only test_dir s s' lines h

    read_files_from-only :
        (s s' : Sets) (files : List Text)
        → read_files open_file dirname none s files ≡ ok s'
        → read_files open_file dirname testfilter (only_sets s) files ≡ ok (only_sets s')
    unfolding read_files
    read_files_from-only s s' [] h = cc
    read_files_from-only s s' (file ∷ files) h =
        let dir = test_dir_of open_file dirname file in
        let (u, p, q) =
          >>=-eq-ok (read_opened open_file dirname none dir s (open_file file))
            (λ u. read_files open_file dirname none u files) h in
        rw (read_opened-only dir s u (open_file file) p) (read_files_from-only u s' files q)

    -- Where the list files are read without a filter, they are read with any filter too, and the sets
    -- are the same, in the same order and with the same names and directories, but for their tests: those whose names
    -- the filter is a part of stay, in their order, and the others are left out.
    pub read_files-FilteredSets :
        (s : Sets) (files : List Text)
        → read_files open_file dirname none no_set files ≡ ok s
        → (r : Sets) × (read_files open_file dirname testfilter no_set files ≡ ok r)
          × FilteredSets testfilter (full_testlist s) (full_testlist r)
    read_files-FilteredSets s files h = (
      only_sets s,
      read_files_from-only no_set s files h,
      subst (FilteredSets testfilter (full_testlist s)) (sym (full_testlist-only_sets s))
          (map-FilteredSets (full_testlist s)),
    )
