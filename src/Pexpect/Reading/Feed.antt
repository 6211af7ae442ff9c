-- ===== src/Pexpect/Reading/Feed.antt =====
-- A child that writes some data and closes its terminal, and a search for a line end in what it
-- writes.
use mathlib.Core.Path.{subst}
use cush.Prelude.{
  ℕ, ◌-◌, ◌≤◌, ◌≡◌, ◌⊎◌, refl, sym, ap, ◌∙◌, inl, inr, false, Option, none, some, List, [], ◌∷◌,
  ◌++◌, arith, length, drop, take, length-take, length-drop, append_assoc,
}
use cush.Prelude.Int.{ℤ}
use cush.Prelude.Text.{Text, starts_with}
use cush.Pexpect.Searcher.{Hit, Item, eof, init, item}
use cush.Pexpect.Searcher.Find.{NoneBefore}
use cush.Pexpect.Searcher.Within.{starts_with-length}
use cush.Pexpect.Expect.{Outcome, Round, Search, Spawn, end_of_file, handle, returned, succeed}
use cush.Pexpect.Expect.Account.{slices}
use cush.Pexpect.Expect.Exact.{take-starts_with}
use cush.Pexpect.Expect.Feed.{IsEnd, IsHit, Story-IsFed, ends_feed, feed, feed_data}
use cush.Pexpect.Expect.Story.{Story}
use cush.Pexpect.Pattern.{Re, searcher_re}
use cush.Pexpect.Reading.Split.{line_end}
use cush.Pexpect.Expect.Sought.{FirstPlace}
use cush.Pexpect.Pattern.Literal.{IsLiteral, search_re-FirstPlace}

module _ {R M : Type 0} (re : Re R M) (r : R) (self : Spawn M) where
  abbrev pub line_items : List (Item R)
  line_items = item r ∷ eof ∷ []

  abbrev pub lines_searcher : Search M
  lines_searcher = searcher_re re line_items

  -- The first line of the data is found, and what follows it is in the buffer and still to come.
  pub record IsLine (all : Text) (ends : List ℤ) (unread : List Round) (result : Outcome × Spawn M)
      : Type 0 where
    pub line : Text
    pub later : Text
    pub chunks : List (Option Text × ℤ)
    pub returns : result.0 ≡ returned 0
    pub before : result.1.before ≡ some line
    pub timeout : result.1.timeout ≡ self.timeout
    pub left : unread ≡ feed chunks ends
    pub first : NoneBefore line_end (line ++ (line_end ++ later)) (length line)
    pub divides : line ++ (line_end ++ (result.1.buffer ++ feed_data chunks)) ≡ all

  -- No line end is in the data, and all of it has been read.
  pub record IsRest (all : Text) (ends : List ℤ) (unread : List Round) (result : Outcome × Spawn M)
      : Type 0 where
    pub end_clock : ℤ
    pub others : List ℤ
    pub returns : result.0 ≡ returned 1
    pub before : result.1.before ≡ some all
    pub timeout : result.1.timeout ≡ self.timeout
    pub buffer : result.1.buffer ≡ []
    pub left : unread ≡ ends_feed others
    pub reads_end : ends ≡ end_clock ∷ others
    pub absent : (n : ℕ) → starts_with line_end (drop n all) ≡ false

  abbrev pub IsRead : Text → List ℤ → List Round → Outcome × Spawn M → Type 0
  IsRead all ends unread result = IsLine all ends unread result ⊎ IsRest all ends unread result

  first_line :
      (literal : IsLiteral re r line_end) (b : Text) (freshlen : ℕ) (o : Option (Hit M))
      → lines_searcher.search b freshlen none ≡ o
      → FirstPlace line_end b o
  unfolding init
  first_line literal b freshlen o p =
      subst (FirstPlace line_end b) p
        (search_re-FirstPlace re line_end (λ e. absurd cc) r b freshlen literal)

  hit-IsLine :
      (incoming : Text) (chunks : List (Option Text × ℤ)) (ends : List ℤ) (h : Hit M)
      → FirstPlace line_end incoming (some h)
      → IsLine (incoming ++ feed_data chunks) ends (feed chunks ends) (succeed self incoming h)
  hit-IsLine incoming chunks ends h (i, e, occ, non) =
      let b : Text = take h.start incoming in
      let rest : Text = drop h.end incoming in
      let two : h.end - h.start ≡ 2 = omega arith in
      let fits : 2 ≤ length (drop h.start incoming) =
        starts_with-length line_end (drop h.start incoming) occ in
      let middle : take (h.end - h.start) (drop h.start incoming) ≡ line_end =
        ap (λ n. take n (drop h.start incoming)) two
        ∙ take-starts_with line_end (drop h.start incoming) occ in
      let whole : b ++ (line_end ++ rest) ≡ incoming =
        ap (λ m. b ++ (m ++ rest)) (sym middle) ∙ slices incoming h.start h.end (omega arith) in
      let at : length b ≡ h.start =
        omega (arith, length-take h.start incoming, length-drop h.start incoming, fits) in
      record {
        line = b;
        later = rest;
        chunks = chunks;
        returns = ap returned i;
        before = refl;
        timeout = refl;
        left = refl;
        first =
            subst (λ t. NoneBefore line_end t (length b)) (sym whole)
              (subst (NoneBefore line_end incoming) (sym at) non);
        divides =
            sym (append_assoc b (line_end ++ rest) (feed_data chunks))
            ∙ ap (λ t. t ++ feed_data chunks) whole;
      }

  end-IsRest :
      (all : Text) (t : ℤ) (ends : List ℤ) (unread : List Round)
      → unread ≡ ends_feed ends
      → ((n : ℕ) → starts_with line_end (drop n all) ≡ false)
      → IsRest all (t ∷ ends) unread (handle lines_searcher self all end_of_file)
  unfolding init
  end-IsRest all t ends unread e absent = record {
    end_clock = t;
    others = ends;
    returns = refl;
    before = refl;
    timeout = refl;
    buffer = refl;
    left = e;
    reads_end = refl;
    absent = absent;
  }

  hit-IsRead :
      (literal : IsLiteral re r line_end) (all : Text) (ends : List ℤ) (unread : List Round)
      (result : Outcome × Spawn M)
      → IsHit lines_searcher none self all ends unread result
      → IsLine all ends unread result
  hit-IsRead literal all ends unread result i =
      subst (λ a. IsLine a ends unread result) i.divides
        (subst (IsLine (i.incoming ++ feed_data i.chunks) ends unread) (sym i.outcome) (
          subst
            (λ u. IsLine (i.incoming ++ feed_data i.chunks) ends u (succeed self i.incoming i.hit))
            (sym i.left)
            (hit-IsLine i.incoming i.chunks ends i.hit
              (first_line literal i.incoming i.freshlen (some i.hit) i.found))))

  end-IsRead :
      (literal : IsLiteral re r line_end) (all : Text) (ends : List ℤ) (unread : List Round)
      (result : Outcome × Spawn M)
      → IsEnd lines_searcher none self all ends unread result
      → IsRest all ends unread result
  end-IsRead literal all ends unread result i = subst (IsRest all ends unread) (sym i.outcome) (
      subst (λ es. IsRest all es unread (handle lines_searcher self all end_of_file))
        (sym i.reads_end)
        (end-IsRest all i.end_clock i.others unread i.left
          (first_line literal all i.freshlen none i.found)))

  -- Without a timeout, a call that still finds the end of the file reads a line or the rest.
  pub Story-IsRead :
      (literal : IsLiteral re r line_end) (incoming : Text) (chunks : List (Option Text × ℤ))
      (t : ℤ) (ends : List ℤ) (rounds unread : List Round) (result : Outcome × Spawn M)
      → Story lines_searcher none none self incoming rounds unread result
      → rounds ≡ feed chunks (t ∷ ends)
      → IsRead (incoming ++ feed_data chunks) (t ∷ ends) unread result
  Story-IsRead literal incoming chunks t ends rounds unread result story f =
      elim (Story-IsFed lines_searcher none self incoming chunks t ends rounds unread result story
        f) [
          | inl i ↦ inl (hit-IsRead literal _ _ unread result i)
          | inr i ↦ inr (end-IsRead literal _ _ unread result i)
        ]
