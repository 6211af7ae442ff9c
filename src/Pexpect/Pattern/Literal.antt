-- ===== src/Pexpect/Pattern/Literal.antt =====
-- The search for a pattern without special characters: `searcher_re` with that pattern alone.
use mathlib.Core.Path.{subst}
use cush.Prelude.{
  ℕ, ◌+◌, ◌-◌, ◌≤◌, ◌<◌, ◌≡◌, ◌≢◌, refl, sym, ap, ◌∙◌, true, false, Option, none, some, [], ◌∷◌,
  ◌==◌, arith, ltb, length, drop, length-drop,
}
use cush.Prelude.Int.{pos}
use cush.Prelude.Text.{Text}
use cush.Pexpect.Searcher.{find, first_at}
use cush.Pexpect.Searcher.Find.{NoneBefore, Occurs, Scanned, first_at-Scanned}
use cush.Pexpect.Searcher.Within.{starts_with-length}
use cush.Pexpect.Pattern.{Re, finish_match, improve_match, search_each, search_re}
use cush.Pexpect.Expect.Sought.{FirstPlace, length_pos}

module _ {R M : Type 0} (re : Re R M) where
  abbrev pub span_of : Option M → Option (ℕ × ℕ)
  span_of none = none
  span_of (some m) = some (re.start m, re.end m)

  abbrev pub span_at : Text → Option ℕ → Option (ℕ × ℕ)
  span_at s none = none
  span_at s (some n) = some (n, n + length s)

  -- A pattern without special characters: it matches where `str.find` finds its text, and there alone.
  abbrev pub IsLiteral : R → Text → Type 0
  IsLiteral r s =
      (b : Text) (from : ℕ) → span_of (re.search r b from) ≡ span_at s (find b s (pos from))

module _ {R M : Type 0} (re : Re R M) (s : Text) (ne : s ≢ []) where
  find-first_at : (b : Text) → find b s (pos 0) ≡ first_at 0 s b
  unfolding find
  find-first_at b = ground arith

  Occurs-in_range : (b : Text) (n : ℕ) → Occurs s b n → n < length b
  Occurs-in_range b n h =
      let fits : length s ≤ length (drop n b) = starts_with-length s (drop n b) h in
      omega (arith, length-drop n b, length_pos s ne, fits)

  finish-FirstPlace :
      (b : Text) (o : Option M) (f : Option ℕ)
      → span_of re o ≡ span_at re s f
      → Scanned 0 s b f
      → FirstPlace s b (
          finish_match re
            (length b)
            (improve_match re (record { first_match = length b; best = none }) 0 o))
  finish-FirstPlace b none none e scan =
      let same : (length b == length b) ≡ true = ground arith in rw same scan
  finish-FirstPlace b none (some n) e scan = absurd cc
  finish-FirstPlace b (some m) none e scan = absurd cc
  finish-FirstPlace b (some m) (some n) e (l, occ, non, len) =
      let z : n - 0 ≡ n = omega arith in
      let at : re.start m ≡ n = cc in
      let to : re.end m ≡ n + length s = cc in
      let occ' : Occurs s b n = subst (Occurs s b) z occ in
      let inside : n < length b = Occurs-in_range b n occ' in
      let early : ltb (re.start m) (length b) ≡ true = ground arith in
      let other : (re.start m == length b) ≡ false = ground arith in
      rw (early, other)
        (
          refl,
          omega arith,
          subst (Occurs s b) (sym at) occ',
          subst (NoneBefore s b) (z ∙ sym at) non,
        )

  pub search_re-FirstPlace :
      (r : R) (b : Text) (freshlen : ℕ)
      → IsLiteral re r s
      → FirstPlace s b (search_re re ((0, r) ∷ []) b freshlen none)
  unfolding search_re search_each
  search_re-FirstPlace r b freshlen literal =
      finish-FirstPlace b (re.search r b 0) (first_at 0 s b)
        (literal b 0 ∙ ap (span_at re s) (find-first_at b)) (first_at-Scanned 0 s b)
