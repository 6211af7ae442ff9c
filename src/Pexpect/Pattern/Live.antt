-- ===== src/Pexpect/Pattern/Live.antt =====
-- When `expect` returns.
use cush.Prelude.{
  ℕ, ◌≤◌, ◌<◌, ◌≡◌, refl, sym, ap, Bool, Option, none, some, List, [], ◌∷◌, ◌++◌, arith, length,
  All, append-nil, append_assoc,
}
use mathlib.Core.Path.{subst}
use cush.Prelude.Int.{ℤ}
use cush.Prelude.Text.{Text}
use cush.Pexpect.Searcher.{Item, init}
use cush.Pexpect.Expect.{
  Outcome, Read, Round, Spawn, chunk, closed, deadline, default_timeout, default_window, empty,
  expect_loop, failed, failure, grow, resolve, returned,
}
use cush.Pexpect.Expect.Account.{payload, received}
use cush.Pexpect.Expect.Story.{Story, expect_loop-Story, fails, hit, late, reads, unread, waits}
use cush.Pexpect.Pattern.{
  Patterns, Re, compile_pattern_list, compiles, expect, expect_list, search_re, searcher_re, ◌>>=◌,
}
use cush.Pexpect.Pattern.Earliest.{EarliestMatch, NoneBefore, NotBefore}
use cush.Pexpect.Pattern.Found.{search_re-EarliestMatch}

-- No round fails.
abbrev pub AllQuiet : List Round → Type 0
AllQuiet rounds = All (λ r. failure r.read ≡ none) rounds

abbrev pub Returns : {M : Type 0} → Outcome × Spawn M → Type 0
Returns {M} result = (index : ℕ) × (s : Spawn M) × (result ≡ (returned index, s))

module _ {R M : Type 0} (re : Re R M) where
  -- One of the patterns has a match in the text, in front of its end.
  pub record MatchesIn (searches : List (ℕ × R)) (all : Text) : Type 0 where
    pub earlier : List (ℕ × R)
    pub index : ℕ
    pub regex : R
    pub later : List (ℕ × R)
    pub splits : searches ≡ earlier ++ (index, regex) ∷ later
    pub match : M
    pub found : re.search regex all 0 ≡ some match
    pub in_range : re.start match < length all

  NoneBefore-one :
      (all : Text) (k : ℕ) (earlier : List (ℕ × R)) (s : ℕ × R) (later : List (ℕ × R))
      → NoneBefore re all 0 k (earlier ++ s ∷ later)
      → NotBefore re k (re.search s.1 all 0)
  NoneBefore-one all k [] s later (h, rest) = h
  NoneBefore-one all k (x ∷ earlier) s later (h, rest) = NoneBefore-one all k earlier s later rest

  not_missed :
      (searches : List (ℕ × R)) (all : Text) (freshlen : ℕ)
      → MatchesIn searches all
      → search_re re searches all freshlen none ≡ none
      → ⊥
  not_missed searches all freshlen m p =
      let absent : NoneBefore re all 0 (length all) searches =
        subst (EarliestMatch re all 0 searches) p
          (search_re-EarliestMatch re searches all freshlen none) in
      let here : NotBefore re (length all) (re.search m.regex all 0) =
        NoneBefore-one all (length all) m.earlier (m.index, m.regex) m.later
          (subst (NoneBefore re all 0 (length all)) m.splits absent) in
      let behind : length all ≤ re.start m.match = subst (NotBefore re (length all)) m.found here in
      omega (arith, behind, m.in_range)

  Story-Returns :
      (items : List (Item R)) (self : Spawn M) (incoming : Text) (rounds unread : List Round)
      (result : Outcome × Spawn M)
      → Story (searcher_re re items) none none self incoming rounds unread result
      → AllQuiet rounds
      → MatchesIn (init items).searches (incoming ++ received rounds)
      → Returns result
  Story-Returns items self incoming rounds unread result (hit freshlen h p) q m = (h.index, _, refl)
  Story-Returns items self incoming rounds unread result (late freshlen t e p) q m = absurd cc
  Story-Returns items self incoming rounds unread result (fails freshlen r e g p) (q, quiet) m =
      absurd (cc (g, q))
  Story-Returns items self incoming rounds unread result (waits freshlen p) q m = absurd (
      not_missed (init items).searches incoming freshlen
        (subst (MatchesIn (init items).searches) (append-nil incoming) m) p)
  Story-Returns items self incoming rounds unread result (reads {rounds = more} freshlen r g p s)
        (q, quiet) m =
      Story-Returns items self (grow incoming r.read) more unread result s quiet
        (subst (MatchesIn (init items).searches) (grown r.read) m)
    where
      grown :
          (x : Read) → incoming ++ (payload x ++ received more) ≡ grow incoming x ++ received more
      grown (chunk c) = sym (append_assoc incoming c (received more))
      grown closed = refl
      grown empty = refl
      grown (failed e) = refl

  -- With no timeout and no search window, where the patterns compile and no read fails: if one of the
  -- patterns has a match in all the data, buffer and reads together, in front of its end, then `expect`
  -- returns.
  pub expect-Returns :
      (ignorecase : Bool) (pattern : Patterns R) (items : List (Item R)) (self : Spawn M)
      (limit window : Option ℤ) (now : ℤ) (rounds : List Round)
      → compile_pattern_list re ignorecase pattern ≡ compiles items
      → resolve default_timeout self.timeout limit ≡ none
      → resolve default_window self.searchwindowsize window ≡ none
      → AllQuiet rounds
      → MatchesIn (init items).searches (self.buffer ++ received rounds)
      → (result : Outcome × Spawn M) × (expect re ignorecase pattern self limit window now rounds
          ≡ compiles result)
        × Returns result
  unfolding expect expect_list
  expect-Returns ignorecase pattern items self limit window now rounds c t w quiet m =
      let searcher = searcher_re re items in
      let result = expect_loop searcher self limit window now rounds in
      let left = unread searcher self limit window now rounds in
      let story : Story searcher none none self self.buffer rounds left result =
        subst (λ x. Story searcher x none self self.buffer rounds left result) w
          (subst
            (λ x.
              Story searcher (resolve default_window self.searchwindowsize window) (deadline now x)
                self self.buffer rounds left result)
            t (expect_loop-Story searcher self limit window now rounds)) in
      (
        result,
        ap (λ l. l >>= λ is. compiles (expect_list re is self limit window now rounds)) c,
        Story-Returns items self self.buffer rounds left result story quiet m,
      )
