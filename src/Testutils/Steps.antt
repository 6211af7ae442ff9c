-- ===== src/Testutils/Steps.antt =====
-- A test that sends lines and expects texts, as a list of steps.
use mathlib.Core.Path.{subst}
use cush.Prelude.{
  ℕ, ◌+◌, ◌≤◌, ◌≡◌, ◌≢◌, refl, sym, ap, ◌∙◌, inl, inr, Bool, false, Option, none, some, List, [],
  ◌∷◌, ◌++◌, arith, length, drop, length-drop, Bool-cases, ltb,
}
use cush.Prelude.Text.{Text, starts_with}
use cush.Pexpect.Searcher.{Hit, add_items, init, item, search_string}
use cush.Pexpect.Searcher.Find.{NoneBefore, Occurs}
use cush.Pexpect.Searcher.Leftmost.{FirstMatch}
use cush.Pexpect.Expect.{string_searcher}
use cush.Pexpect.Expect.Exact.{search-FirstMatch}
use cush.Pexpect.Expect.Sought.{Absent, FirstPlace, Seeks}
use cush.Pexpect.Pattern.{Re, search_re, searcher_re}
use cush.Pexpect.Pattern.Literal.{IsLiteral, search_re-FirstPlace}
use cush.Testutils.Session.{
  Harness, Matched, Test, expect, expect_exact, map_hit, map_search, re_match, sendcontrol, sendeof,
  sendintr, sendline, test_success, text_match, ◌>>◌,
}

-- What a test may do: send a line, a control character, the interrupt or the end of its input, or expect a text
-- as it is or as a pattern.
pub data Step : Type 0 where
  line exact pattern : Text → Step
  control : ℕ → Step
  interrupt end_input : Step

map_hit-FirstPlace :
    {M N : Type 0} (f : M → N) (t b : Text) (o : Option (Hit M))
    → FirstPlace t b o
    → FirstPlace t b (map_hit f o)
map_hit-FirstPlace f t b none h = h
map_hit-FirstPlace f t b (some x) h = h

-- A text that is not empty does not begin behind the end.
Absent-behind : (t b : Text) → t ≢ [] → NoneBefore t b (length b) → Absent t b
Absent-behind t b ne h n = elim (Bool-cases (ltb n (length b))) [
  | inl l ↦ h n (ground (arith, l))
  | inr l ↦ none_left t (drop n b) ne (omega (arith, length-drop n b, at_end n (length b) l))
]
  where
    at_end : (m k : ℕ) → ltb m k ≡ false → k ≤ m
    at_end m k l = ground (arith, l)

    none_left : (u x : Text) → u ≢ [] → length x ≤ 0 → starts_with u x ≡ false
    none_left [] x n l = absurd (n refl)
    none_left (c ∷ u) [] n l = refl
    none_left (c ∷ u) (d ∷ x) n l = absurd (omega (arith, l))

only_one : {A : Type 0} (x y : A) (earlier later : List A) → x ∷ [] ≡ earlier ++ y ∷ later → x ≡ y
only_one x y [] later e = cc
only_one x y (a ∷ []) later e = absurd cc
only_one x y (a ∷ b ∷ earlier) later e = absurd cc

FirstMatch-FirstPlace :
    (t b : Text) (o : Option (Hit Text)) → t ≢ [] → FirstMatch ((0, t) ∷ []) b o → FirstPlace t b o
FirstMatch-FirstPlace t b none ne (h, rest) = Absent-behind t b ne h
FirstMatch-FirstPlace t b (some x) ne (f, e) =
    let same : (0, t) ≡ (x.index, x.match) =
      only_one (0, t) (x.index, x.match) f.earlier f.later f.splits in
    let text : x.match ≡ t = sym (ap (λ p. p.1) same) in
    (
      sym (ap (λ p. p.0) same),
      e ∙ ap (λ m. x.start + length m) text,
      subst (λ m. Occurs m b x.start) text f.occurs,
      subst (λ m. NoneBefore m b x.start) text f.none_before,
    )

pub string_searcher-Seeks :
    {M : Type 0} (t : Text)
    → t ≢ []
    → Seeks (map_search {N = Matched M} text_match (string_searcher (item t ∷ []))) t
unfolding init add_items
string_searcher-Seeks t ne = record {
  first = λ b freshlen h.
      map_hit-FirstPlace text_match t b (search_string ((0, t) ∷ []) b freshlen none) (
        FirstMatch-FirstPlace t b (search_string ((0, t) ∷ []) b freshlen none) ne
          (search-FirstMatch ((0, t) ∷ []) (ne, tt) b freshlen (h, tt)));
  no_eof = refl;
  no_timeout = refl;
  not_empty = ne;
}

pub searcher_re-Seeks :
    {R M : Type 0} (re : Re R M) (r : R) (t : Text)
    → t ≢ []
    → IsLiteral re r t
    → Seeks (map_search re_match (searcher_re re (item r ∷ []))) t
unfolding init add_items
searcher_re-Seeks re r t ne literal = record {
  first = λ b freshlen h.
      map_hit-FirstPlace re_match t b (search_re re ((0, r) ∷ []) b freshlen none)
        (search_re-FirstPlace re t ne r b freshlen literal);
  no_eof = refl;
  no_timeout = refl;
  not_empty = ne;
}

-- The texts that the steps expect, in their order.
abbrev pub expected : List Step → List Text
expected [] = []
expected (line l ∷ steps) = expected steps
expected (control ch ∷ steps) = expected steps
expected (interrupt ∷ steps) = expected steps
expected (end_input ∷ steps) = expected steps
expected (exact t ∷ steps) = t ∷ expected steps
expected (pattern t ∷ steps) = t ∷ expected steps

module _ {R W M : Type 0} (h : Harness R W M) where
  abbrev pub perform : Step → Test W M (Unit {0})
  perform (line l) = sendline h l
  perform (control ch) = sendcontrol h ch
  perform interrupt = sendintr h
  perform end_input = sendeof h
  perform (exact t) = expect_exact h t
  perform (pattern t) = expect h t

  abbrev pub perform_all : List Step → Test W M (Unit {0})
  perform_all [] = test_success h
  perform_all (step ∷ steps) = perform step >> perform_all steps

  -- A text that is expected is not empty, and as a pattern it has no special characters.
  abbrev pub IsPlainStep : Bool → Step → Type 0
  IsPlainStep ignorecase (exact t) = t ≢ []
  IsPlainStep ignorecase (pattern t) =
      (t ≢ []) × (r : R) × (h.re.compile ignorecase t ≡ some r) × IsLiteral h.re r t
  IsPlainStep ignorecase _ = Unit
