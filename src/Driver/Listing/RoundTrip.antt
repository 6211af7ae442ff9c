-- ===== src/Driver/Listing/RoundTrip.antt =====
-- tests/stdriver.py: a list file that is written out from groups of tests is read back.
use cush.Prelude.{
  ℕ, ◌≡◌, ◌≢◌, refl, sym, ap, ◌∙◌, true, false, not, none, some, List, [], ◌∷◌, ◌++◌, arith, map,
  append_assoc, append-nil, All,
}
use cush.Prelude.Text.{Text, decimal_from, is_digit, is_space, span}
use cush.Prelude.Runs.{IsRun, span-run}
use cush.Driver.Result.{ok}
use cush.Driver.Listing.{
  Sets, Test, TestSet, add_line, add_set, append_test, full_testlist, is_newline, match_header,
  match_test, name_group, named, behind_blanks, behind_digits, no_set, passes, read_lines, sets,
}

-- A test as it is written: the digits of its points, the name of its script, and what stands behind a blank.
pub record Entry : Type 0 where
  pub digits : Text
  pub script : Text
  pub extra : Text

pub record Group : Type 0 where
  pub title : Text
  pub entries : List Entry

-- Nothing, or a blank and more.
abbrev pub IsExtra : Text → Type 0
IsExtra [] = Unit
IsExtra (c ∷ t) = is_space c ≡ true

abbrev pub IsEntry : Entry → Type 0
IsEntry e = IsRun is_digit e.digits × IsRun (λ c. not (is_space c)) e.script × IsExtra e.extra

abbrev pub IsGroup : Group → Type 0
IsGroup g = IsRun (λ c. not (is_newline c)) g.title × All IsEntry g.entries

abbrev pub entry_line : Entry → Text
entry_line e = e.digits ++ (32 ∷ (e.script ++ (e.extra ++ b'\n' ∷ [])))

abbrev pub title_line : Group → Text
title_line g = b'=' ∷ 32 ∷ (g.title ++ b'\n' ∷ [])

abbrev pub entry_lines : List Entry → List Text → List Text
entry_lines [] rest = rest
entry_lines (e ∷ es) rest = entry_line e ∷ entry_lines es rest

abbrev pub list_file : List Group → List Text
list_file [] = []
list_file (g ∷ gs) = title_line g ∷ entry_lines g.entries (list_file gs)

abbrev pub test_of : Entry → Test
test_of e = record { points = decimal_from 0 e.digits; testname = e.script }

abbrev pub set_of : Text → Group → TestSet
set_of dir g = record { name = g.title; tests = map test_of g.entries; dir = dir }

match_header-title :
    (g : Group)
    → IsRun (λ c. not (is_newline c)) g.title
    → match_header (title_line g) ≡ some g.title
unfolding match_header
match_header-title g (h, ne) =
    ap name_group (span-run (λ c. not (is_newline c)) g.title b'\n' [] h refl) ∙ whole g.title ne
  where
    whole : (t : Text) → t ≢ [] → name_group (t, b'\n' ∷ []) ≡ some t
    whole [] ne = absurd (ne refl)
    whole (c ∷ t) ne = refl

digit_no_header : (c : ℕ) (t : Text) → is_digit c ≡ true → match_header (c ∷ t) ≡ none
unfolding match_header
digit_no_header c [] h = refl
digit_no_header c (b ∷ t) h = ground arith

match_header-entry : (e : Entry) → IsRun is_digit e.digits → match_header (entry_line e) ≡ none
match_header-entry e h = go e.digits h
  where
    go :
        (digits : Text)
        → IsRun is_digit digits
        → match_header (digits ++ (32 ∷ (e.script ++ (e.extra ++ b'\n' ∷ [])))) ≡ none
    go [] (h, ne) = absurd (ne refl)
    go (c ∷ digits) ((d, h), ne) =
        digit_no_header c (digits ++ (32 ∷ (e.script ++ (e.extra ++ b'\n' ∷ [])))) d

module _ (n : ℕ) (script extra : Text) (run : IsRun (λ c. not (is_space c)) script)
    (blanks : IsExtra extra) where
  named-script :
      named n (span (λ c. not (is_space c)) (script ++ (extra ++ b'\n' ∷ [])))
      ≡ some (record { points = n; testname = script })
  named-script = go extra blanks
    where
      whole :
          (t rest : Text) → t ≢ [] → named n (t, rest) ≡ some (record { points = n; testname = t })
      whole [] rest ne = absurd (ne refl)
      whole (c ∷ t) rest ne = refl

      go :
          (x : Text)
          → IsExtra x
          → named n (span (λ c. not (is_space c)) (script ++ (x ++ b'\n' ∷ [])))
            ≡ some (record { points = n; testname = script })
      go [] h =
          ap (named n) (span-run (λ c. not (is_space c)) script b'\n' [] run.0 refl)
          ∙ whole script (b'\n' ∷ []) run.1
      go (c ∷ x) h =
          let blank : not (is_space c) ≡ false = ap not h in
          ap (named n) (span-run (λ d. not (is_space d)) script c (x ++ b'\n' ∷ []) run.0 blank)
          ∙ whole script (c ∷ (x ++ b'\n' ∷ [])) run.1

behind_blanks-script :
    (n : ℕ) (script extra : Text)
    → IsRun (λ c. not (is_space c)) script
    → IsExtra extra
    → behind_blanks n (span is_space (32 ∷ (script ++ (extra ++ b'\n' ∷ []))))
      ≡ some (record { points = n; testname = script })
behind_blanks-script n [] extra (h, ne) x = absurd (ne refl)
behind_blanks-script n (c ∷ script) extra ((b, h), ne) x =
    ap (behind_blanks n)
      (span-run is_space (32 ∷ []) c (script ++ (extra ++ b'\n' ∷ [])) (refl, tt) blank)
    ∙ named-script n (c ∷ script) extra ((b, h), ne) x
  where
    blank : is_space c ≡ false
    blank = ground arith

behind_digits-digits :
    (digits rest : Text)
    → digits ≢ []
    → behind_digits (digits, rest) ≡ behind_blanks (decimal_from 0 digits) (span is_space rest)
behind_digits-digits [] rest ne = absurd (ne refl)
behind_digits-digits (c ∷ digits) rest ne = refl

match_test-entry : (e : Entry) → IsEntry e → match_test (entry_line e) ≡ some (test_of e)
unfolding match_test
match_test-entry e ((hd, nd), hs, x) =
    let rest = 32 ∷ (e.script ++ (e.extra ++ b'\n' ∷ [])) in
    ap behind_digits (span-run is_digit e.digits 32 (e.script ++ (e.extra ++ b'\n' ∷ [])) hd refl)
    ∙ behind_digits-digits e.digits rest nd
    ∙ behind_blanks-script (decimal_from 0 e.digits) e.script e.extra hs x

module _ (dir : Text) where
  read_lines-entries :
      (earlier : List TestSet) (testset : TestSet) (es : List Entry) (rest : List Text)
      → All IsEntry es
      → read_lines none dir (sets earlier testset) (entry_lines es rest)
        ≡ read_lines none dir
            (sets earlier (record testset { tests = testset.tests ++ map test_of es }))
            rest
  unfolding read_lines add_line passes
  read_lines-entries earlier testset [] rest h = rw append-nil
  read_lines-entries earlier testset (e ∷ es) rest (h, hs) =
      rw (match_header-entry e h.0, match_test-entry e h)
        (read_lines-entries earlier (append_test testset (test_of e)) es rest hs ∙ rw append_assoc)

  read_lines-title :
      (s : Sets) (g : Group) (rest : List Text)
      → IsRun (λ c. not (is_newline c)) g.title
      → read_lines none dir s (title_line g ∷ rest)
        ≡ read_lines none dir (add_set s (record { name = g.title; tests = []; dir = dir })) rest
  unfolding read_lines add_line
  read_lines-title s g rest h = rw (match_header-title g h)

  read_lines-groups :
      (s : Sets) (gs : List Group)
      → All IsGroup gs
      → (r : Sets) × (read_lines none dir s (list_file gs) ≡ ok r)
        × (full_testlist r ≡ full_testlist s ++ map (set_of dir) gs)
  read_lines-groups s [] h = (s, unfold read_lines in refl, sym (append-nil (full_testlist s)))
  read_lines-groups s (g ∷ gs) ((ht, he), hs) =
      let rest = entry_lines g.entries (list_file gs) in
      let (r, p, q) = read_lines-groups (sets (full_testlist s) (set_of dir g)) gs hs in
      (
        r,
        read_lines-title s g rest ht
            ∙ read_lines-entries (full_testlist s)
                (record { name = g.title; tests = []; dir = dir }) g.entries (list_file gs) he
            ∙ p,
        q ∙ append_assoc (full_testlist s) (set_of dir g ∷ []) (map (set_of dir) gs),
      )

-- A list file has a line `= title` before each group, with a title on one line that is not empty, and, for each test, a
-- line with the digits of the points, a space, a name without blanks, and perhaps a blank and more. With no filter it is
-- read into the groups that were written: their titles, and their tests with the decimal value of the points and
-- the name up to the blank, without what is behind it, in order, each with the directory of the file.
pub read_lines-list_file :
    (dir : Text) (gs : List Group)
    → All IsGroup gs
    → (r : Sets) × (read_lines none dir no_set (list_file gs) ≡ ok r)
      × (full_testlist r ≡ map (set_of dir) gs)
read_lines-list_file dir gs h = read_lines-groups dir no_set gs h
