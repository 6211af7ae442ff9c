-- ===== src/Pexpect/Pattern/Found.antt =====
-- The result of `searcher_re.search`, and the data that `expect` reads.
use mathlib.Core.Path.{subst}
use cush.Prelude.{
  ℕ, ◌≤◌, ◌<◌, ◌≡◌, refl, sym, ap, inl, inr, Bool, true, Option, none, some, List, [], ◌∷◌, ◌++◌,
  arith, ◌==◌, length, Bool-cases, append_assoc, append-nil,
}
use cush.Prelude.Int.{ℤ}
use cush.Prelude.Text.{Text}
use cush.Pexpect.Searcher.{Hit, Item, init}
use cush.Pexpect.Expect.{Outcome, Round, Spawn, expect_loop}
use cush.Pexpect.Expect.Account.{AccountedRun, IsWithin, expect_loop-AccountedRun}
use cush.Pexpect.Pattern.{
  BestMatch, Patterns, Re, compile_pattern_list, compiles, expect, expect_list, finish_match,
  improve_match, search_each, search_re, search_start, searcher_re, ◌>>=◌,
}
use cush.Pexpect.Pattern.Earliest.{
  BestSoFar, EarliestMatch, IsSpan, MatchesWithin, improve_match-BestSoFar,
}

module _ {R M : Type 0} (re : Re R M) where
  search_each-BestSoFar :
      (buffer : Text) (from : ℕ) (seen rest : List (ℕ × R)) (b : BestMatch M)
      → BestSoFar re buffer from seen b.first_match b.best
      → (let c : BestMatch M = search_each re buffer from rest b in
          BestSoFar re buffer from (seen ++ rest) c.first_match c.best)
  unfolding search_each
  search_each-BestSoFar buffer from seen [] b h =
      subst (λ s. BestSoFar re buffer from s b.first_match b.best) (sym (append-nil seen)) h
  search_each-BestSoFar buffer from seen ((index, r) ∷ rest) b h =
      let next : BestMatch M = improve_match re b index (re.search r buffer from) in
      let last : BestMatch M = search_each re buffer from rest next in
      subst (λ s. BestSoFar re buffer from s last.first_match last.best)
        (append_assoc seen ((index, r) ∷ []) rest)
        (search_each-BestSoFar buffer from (seen ++ (index, r) ∷ []) rest next (
          improve_match-BestSoFar re buffer from seen index r b.first_match b.best
            (re.search r buffer from) refl h))

  finish_match-EarliestMatch :
      (buffer : Text) (from : ℕ) (searches : List (ℕ × R)) (first : ℕ) (best : Option (ℕ × M))
      → BestSoFar re buffer from searches first best
      → EarliestMatch re buffer from searches
          (finish_match re (length buffer) (record { first_match = first; best = best }))
  finish_match-EarliestMatch buffer from searches first none (e, a) =
      elim (Bool-cases (first == length buffer)) [
        | inl q ↦ rw q a
        | inr q ↦ absurd (ground (arith, e, q))
      ]
  finish_match-EarliestMatch buffer from searches first (some (i, m)) (e, a) =
      elim (Bool-cases (first == length buffer)) [
        | inl q ↦ absurd (inside a.in_range q)
        | inr q ↦ rw q (a, (e, refl))
      ]
    where
      inside : re.start m < length buffer → (first == length buffer) ≡ true → ⊥
      inside l q = ground arith

  -- A hit of the search is the match of one of the patterns, and it has its offsets; of the matches
  -- that the patterns have from the start of the search window, none begins earlier, and those of the
  -- patterns in front of it begin later. Without a hit no pattern has a match that begins in front of the
  -- end of the buffer.
  pub search_re-EarliestMatch :
      (searches : List (ℕ × R)) (buffer : Text) (freshlen : ℕ) (window : Option ℤ)
      → EarliestMatch re buffer
          (search_start (length buffer) window)
          searches
          (search_re re searches buffer freshlen window)
  unfolding search_re
  search_re-EarliestMatch searches buffer freshlen window =
      let from = search_start (length buffer) window in
      let start : BestMatch M = record { first_match = length buffer; best = none } in
      let b : BestMatch M = search_each re buffer from searches start in
      finish_match-EarliestMatch buffer from searches b.first_match b.best
        (search_each-BestSoFar buffer from [] searches start (refl, tt))

  pub searcher_re-IsWithin :
      (patterns : List (Item R)) → MatchesWithin re → IsWithin (searcher_re re patterns)
  searcher_re-IsWithin patterns spans = record { hit_within = λ b f w h e. within b f w h e }
    where
      searches : List (ℕ × R)
      searches = (init patterns).searches

      within :
          (b : Text) (freshlen : ℕ) (window : Option ℤ) (h : Hit M)
          → search_re re searches b freshlen window ≡ some h
          → (h.start ≤ h.end) × (h.end ≤ length b)
      within b freshlen window h e =
          let from = search_start (length b) window in
          let (a, (s, t)) =
            subst (EarliestMatch re b from searches) e
              (search_re-EarliestMatch searches b freshlen window) in
          let (l, (m, n)) = subst (IsSpan re from b) a.found (spans a.regex b from) in
          (omega (arith, s, t, m), omega (arith, t, n))

  -- If `re` gives matches that lie within the text: where the patterns compile, `expect` comes to a
  -- result, and some of the rounds are used, in their order. What the object's buffer held and these
  -- rounds brought is divided: a match leaves it as `before`, `after` and the new buffer, a timeout as
  -- `before` and again as the buffer, the end of the file as `before` with an empty buffer, and any other
  -- exception as `before` with the buffer unchanged. A call that still waits has changed nothing.
  pub expect-AccountedRun :
      (spans : MatchesWithin re) (ignorecase : Bool) (pattern : Patterns R) (items : List (Item R))
      (self : Spawn M) (limit window : Option ℤ) (now : ℤ) (rounds : List Round)
      → compile_pattern_list re ignorecase pattern ≡ compiles items
      → (r : Outcome × Spawn M) × (expect re ignorecase pattern self limit window now rounds
          ≡ compiles r)
        × AccountedRun self self.buffer rounds r
  unfolding expect expect_list
  expect-AccountedRun spans ignorecase pattern items self limit window now rounds c = (
    expect_loop (searcher_re re items) self limit window now rounds,
    ap (λ l. l >>= λ is. compiles (expect_loop (searcher_re re is) self limit window now rounds)) c,
    expect_loop-AccountedRun (searcher_re re items) (searcher_re-IsWithin items spans) self limit
        window now rounds,
  )
