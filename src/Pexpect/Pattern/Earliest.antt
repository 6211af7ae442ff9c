-- ===== src/Pexpect/Pattern/Earliest.antt =====
-- The match of `searcher_re.search`, and the data that `expect` reads.
use mathlib.Core.Path.{subst}
use cush.Prelude.{
  ℕ, ◌+◌, ◌≤◌, ◌<◌, ◌≡◌, refl, sym, ap, ◌∙◌, inl, inr, true, Option, none, some, List, [], ◌∷◌,
  ◌++◌, arith, ltb, length, All, Bool-cases, append_assoc,
}
use cush.Prelude.Text.{Text}
use cush.Pexpect.Searcher.{Hit}
use cush.Pexpect.Pattern.{BestMatch, Re, improve_match}

module _ {R M : Type 0} (re : Re R M) where
  -- What `re` promises: a match that is searched from a position in the text begins there or later,
  -- ends where it begins or later, and ends within the text.
  abbrev pub IsSpan : ℕ → Text → Option M → Type 0
  IsSpan from buffer none = Unit
  IsSpan from buffer (some m) =
      (from ≤ re.start m) × ((re.start m ≤ re.end m) × (re.end m ≤ length buffer))

  abbrev pub MatchesWithin : Type 0
  MatchesWithin = (r : R) (buffer : Text) (from : ℕ) → IsSpan from buffer (re.search r buffer from)

  -- The match, if there is one, does not begin before `k`.
  abbrev pub NotBefore : ℕ → Option M → Type 0
  NotBefore k none = Unit
  NotBefore k (some m) = k ≤ re.start m

  module _ (buffer : Text) (from : ℕ) where
    abbrev pub NoneBefore : ℕ → List (ℕ × R) → Type 0
    NoneBefore k searches = All (λ s. NotBefore k (re.search s.1 buffer from)) searches

    -- `m` is the match of the pattern `index`; no pattern has an earlier one, and those in front of it in
    -- the list have later ones.
    pub record IsEarliest (searches : List (ℕ × R)) (index : ℕ) (m : M) : Type 0 where
      pub earlier : List (ℕ × R)
      pub regex : R
      pub later : List (ℕ × R)
      pub splits : searches ≡ earlier ++ (index, regex) ∷ later
      pub found : re.search regex buffer from ≡ some m
      pub in_range : re.start m < length buffer
      pub none_earlier : NoneBefore (re.start m + 1) earlier
      pub none_later : NoneBefore (re.start m) later

    abbrev pub EarliestMatch : List (ℕ × R) → Option (Hit M) → Type 0
    EarliestMatch searches none = NoneBefore (length buffer) searches
    EarliestMatch searches (some h) =
        IsEarliest searches h.index h.match
        × ((h.start ≡ re.start h.match) × (h.end ≡ re.end h.match))

    NoneBefore-concat :
        (k : ℕ) (seen : List (ℕ × R)) (s : ℕ × R)
        → NoneBefore k seen
        → NotBefore k (re.search s.1 buffer from)
        → NoneBefore k (seen ++ s ∷ [])
    NoneBefore-concat k [] s a h = (h, tt)
    NoneBefore-concat k (x ∷ seen) s (a, rest) h = (a, NoneBefore-concat k seen s rest h)

    NotBefore-mono : (j k : ℕ) (o : Option M) → j ≤ k → NotBefore k o → NotBefore j o
    NotBefore-mono j k none l h = tt
    NotBefore-mono j k (some m) l h = omega arith

    NoneBefore-mono :
        (j k : ℕ) (seen : List (ℕ × R)) → j ≤ k → NoneBefore k seen → NoneBefore j seen
    NoneBefore-mono j k [] l h = tt
    NoneBefore-mono j k (x ∷ seen) l (a, rest) =
        (NotBefore-mono j k (re.search x.1 buffer from) l a, NoneBefore-mono j k seen l rest)

    NoneBefore-append :
        (k : ℕ) (xs ys : List (ℕ × R)) → NoneBefore k xs → NoneBefore k ys → NoneBefore k (xs ++ ys)
    NoneBefore-append k [] ys a b = b
    NoneBefore-append k (x ∷ xs) ys (a, rest) b = (a, NoneBefore-append k xs ys rest b)

    -- The invariant of the loop, for the patterns that it has tried.
    abbrev pub BestSoFar : List (ℕ × R) → ℕ → Option (ℕ × M) → Type 0
    BestSoFar seen first none = (first ≡ length buffer) × NoneBefore (length buffer) seen
    BestSoFar seen first (some (index, m)) = (first ≡ re.start m) × IsEarliest seen index m

    IsEarliest-NoneBefore :
        (seen : List (ℕ × R)) (i : ℕ) (m : M) → IsEarliest seen i m → NoneBefore (re.start m) seen
    IsEarliest-NoneBefore seen i m e = subst (NoneBefore (re.start m)) (sym e.splits) (
        NoneBefore-append (re.start m) e.earlier ((i, e.regex) ∷ e.later)
          (NoneBefore-mono (re.start m) (re.start m + 1) e.earlier (omega arith) e.none_earlier)
          (subst (NotBefore (re.start m)) (sym e.found) (omega arith), e.none_later))

    IsEarliest-concat :
        (seen : List (ℕ × R)) (i : ℕ) (m : M) (s : ℕ × R)
        → IsEarliest seen i m
        → NotBefore (re.start m) (re.search s.1 buffer from)
        → IsEarliest (seen ++ s ∷ []) i m
    IsEarliest-concat seen i m s e h = record {
      earlier = e.earlier;
      regex = e.regex;
      later = e.later ++ s ∷ [];
      splits =
          ap (λ l. l ++ s ∷ []) e.splits ∙ append_assoc e.earlier ((i, e.regex) ∷ e.later) (s ∷ []);
      found = e.found;
      in_range = e.in_range;
      none_earlier = e.none_earlier;
      none_later = NoneBefore-concat (re.start m) e.later s e.none_later h;
    }

    IsEarliest-new :
        (seen : List (ℕ × R)) (index : ℕ) (r : R) (m : M)
        → re.search r buffer from ≡ some m
        → re.start m < length buffer
        → NoneBefore (re.start m + 1) seen
        → IsEarliest (seen ++ (index, r) ∷ []) index m
    IsEarliest-new seen index r m f l h = record {
      earlier = seen;
      regex = r;
      later = [];
      splits = refl;
      found = f;
      in_range = l;
      none_earlier = h;
      none_later = tt;
    }

    pub improve_match-BestSoFar :
        (seen : List (ℕ × R)) (index : ℕ) (r : R) (first : ℕ) (best : Option (ℕ × M)) (o : Option M)
        → re.search r buffer from ≡ o
        → BestSoFar seen first best
        → (let b : BestMatch M =
              improve_match re (record { first_match = first; best = best }) index o in
            BestSoFar (seen ++ (index, r) ∷ []) b.first_match b.best)
    improve_match-BestSoFar seen index r first none none f (e, a) = (
      e,
      NoneBefore-concat (length buffer) seen (index, r) a
          (subst (NotBefore (length buffer)) (sym f) tt),
    )
    improve_match-BestSoFar seen index r first (some (i, m)) none f (e, a) =
        (e, IsEarliest-concat seen i m (index, r) a (subst (NotBefore (re.start m)) (sym f) tt))
    improve_match-BestSoFar seen index r first none (some n) f (e, a) =
        elim (Bool-cases (ltb (re.start n) first)) [
          | inl lt ↦ rw lt (
            refl,
            IsEarliest-new seen index r n f (ground arith)
                (NoneBefore-mono (re.start n + 1) (length buffer) seen (ground arith) a),
          )
          | inr ge ↦ rw ge (
            e,
            NoneBefore-concat (length buffer) seen (index, r) a
                (subst (NotBefore (length buffer)) (sym f) (ground arith)),
          )
        ]
    improve_match-BestSoFar seen index r first (some (i, m)) (some n) f (e, a) =
        elim (Bool-cases (ltb (re.start n) first)) [
          | inl lt ↦ rw lt (
            refl,
            IsEarliest-new seen index r n f (within a.in_range lt) (
                NoneBefore-mono (re.start n + 1) (re.start m) seen (ground arith)
                  (IsEarliest-NoneBefore seen i m a)),
          )
          | inr ge ↦ rw ge (
            e,
            IsEarliest-concat seen i m (index, r) a
                (subst (NotBefore (re.start m)) (sym f) (ground arith)),
          )
        ]
      where
        within :
            re.start m < length buffer → ltb (re.start n) first ≡ true → re.start n < length buffer
        within l lt = ground arith
