-- ===== src/Pexpect/Reading/Readlines.antt =====
-- What `readlines` gives for the data of a child that writes and then closes its terminal.
use mathlib.Core.Path.{subst}
use cush.Prelude.{
  suc, ◌<◌, ◌≡◌, refl, sym, ap, ◌∙◌, inl, inr, Bool, Option, none, some, List, [], ◌∷◌, ◌++◌, arith,
  length, append-nil,
}
use cush.Prelude.Int.{ℤ, negsuc}
use cush.Prelude.Text.{Text}
use cush.Pexpect.Expect.{
  Outcome, Round, Spawn, deadline, default_timeout, expect_loop, returned, value,
}
use cush.Pexpect.Expect.Story.{Story, expect_loop-Story, unread}
use cush.Pexpect.Pattern.{
  Re, compile_pattern_list, compiles, eof_type, expect, expect_list, several, source, ◌>>=◌,
}
use cush.Pexpect.Reading.{Answer, as_slot, gives, line_of, pick, pick_compiled, readline}
use cush.Pexpect.Reading.Lines.{
  Gathered, compiled_unread, gather, gathered, line_unread, prepend, readlines,
}
use cush.Pexpect.Reading.Split.{last_line, line_end, split_from-last, split_from-line, split_lines}
use cush.Pexpect.Pattern.Literal.{IsLiteral}
use cush.Pexpect.Expect.Feed.{ends_feed, feed, feed_data}
use cush.Pexpect.Reading.Feed.{IsLine, IsRead, IsRest, Story-IsRead, line_items, lines_searcher}

module _ {R M : Type 0} (re : Re R M) (ignorecase : Bool) (size_pattern : ℤ → R) (r : R)
    (crlf : re.compile ignorecase line_end ≡ some r) (literal : IsLiteral re r line_end) where
  abbrev line_call : Spawn M → ℤ → List Round → Outcome × Spawn M
  line_call self now rounds =
      expect_loop (lines_searcher re r self) self (some default_timeout) none now rounds

  abbrev line_left : Spawn M → ℤ → List Round → List Round
  line_left self now rounds =
      unread (lines_searcher re r self) self (some default_timeout) none now rounds

  compiles_line :
      (self : Spawn M)
      → compile_pattern_list re ignorecase (several (source line_end ∷ eof_type ∷ []))
        ≡ compiles (line_items re r self)
  unfolding compile_pattern_list
  compiles_line self = rw crlf

  readline-call :
      (self : Spawn M) (now : ℤ) (rounds : List Round)
      → readline re ignorecase eof_type size_pattern (negsuc 0) self now rounds
        ≡ pick re (λ s. line_of re s.before) (line_call self now rounds)
  unfolding readline expect expect_list
  readline-call self now rounds =
      ap
        (λ l.
          pick_compiled re self (λ s. line_of re s.before)
            (l >>= λ items.
              compiles (expect_list re items self (some default_timeout) none now rounds)))
        (compiles_line self)

  line_unread-left :
      (self : Spawn M) (now : ℤ) (rounds : List Round)
      → line_unread re ignorecase eof_type size_pattern (negsuc 0) self now rounds
        ≡ line_left self now rounds
  unfolding line_unread
  line_unread-left self now rounds =
      ap (λ l. compiled_unread re ignorecase eof_type size_pattern l self now rounds)
        (compiles_line self)

  abbrev picked : Outcome × Spawn M → Answer × Spawn M
  picked = pick re (λ s. line_of re s.before)

  abbrev lines_of : List ℤ → Spawn M → List Round → Gathered × Spawn M
  lines_of = readlines re ignorecase eof_type size_pattern

  abbrev gather_line : Answer × Spawn M → Gathered × Spawn M → Gathered × Spawn M
  gather_line = gather re ignorecase eof_type size_pattern

  readlines-step :
      (now : ℤ) (starts : List ℤ) (self : Spawn M) (rounds : List Round)
      → lines_of (now ∷ starts) self rounds
        ≡ gather_line
            (picked (line_call self now rounds))
            (lines_of starts (picked (line_call self now rounds)).1 (line_left self now rounds))
  unfolding readlines
  readlines-step now starts self rounds =
      ap
        (λ x. gather_line x (
          lines_of starts x.1
            (line_unread re ignorecase eof_type size_pattern (negsuc 0) self now rounds)))
        (readline-call self now rounds)
      ∙ ap
          (λ u.
            gather_line (picked (line_call self now rounds))
              (lines_of starts (picked (line_call self now rounds)).1 u))
          (line_unread-left self now rounds)

  picked-line :
      (res : Outcome × Spawn M) (b : Text)
      → res.0 ≡ returned 0
      → res.1.before ≡ some b
      → picked res ≡ (gives (value (b ++ line_end)), res.1)
  picked-line (o, s) b e h = ap (λ x. picked (x, s)) e ∙ ap (λ x. (gives (line_of re x), s)) h

  picked-rest :
      (res : Outcome × Spawn M) (b : Text)
      → res.0 ≡ returned 1
      → res.1.before ≡ some b
      → picked res ≡ (gives (value b), res.1)
  picked-rest (o, s) b e h = ap (λ x. picked (x, s)) e ∙ ap (λ x. (gives (as_slot x), s)) h

  gather_line-line :
      (b : Text) (s : Spawn M) (rest : Gathered × Spawn M)
      → gather_line (gives (value (b ++ line_end)), s) rest
        ≡ (prepend (b ++ line_end) rest.0, rest.1)
  gather_line-line [] s rest = refl
  gather_line-line (c ∷ b) s rest = refl

  line_call-IsRead :
      (self : Spawn M) (now t : ℤ) (chunks : List (Option Text × ℤ)) (ends : List ℤ)
      → self.timeout ≡ none
      → (let rounds = feed chunks (t ∷ ends) in
          IsRead re r self
            (self.buffer ++ feed_data chunks)
            (t ∷ ends)
            (line_left self now rounds)
            (line_call self now rounds))
  line_call-IsRead self now t chunks ends h =
      let rounds = feed chunks (t ∷ ends) in
      Story-IsRead re r self literal self.buffer chunks t ends rounds (line_left self now rounds)
        (line_call self now rounds)
        (subst
          (λ o.
            Story (lines_searcher re r self) none (deadline now o) self self.buffer rounds
              (line_left self now rounds) (line_call self now rounds))
          h
          (expect_loop-Story (lines_searcher re r self) self (some default_timeout) none now
            rounds))
        refl

  readlines-IsLine :
      (now : ℤ) (starts : List ℤ) (self : Spawn M) (rounds : List Round) (all : Text)
      (ends : List ℤ)
      (i : IsLine re r self all ends (line_left self now rounds) (line_call self now rounds))
      → (lines_of (now ∷ starts) self rounds).0
        ≡ prepend
            (i.line ++ line_end)
            (lines_of starts (line_call self now rounds).1 (feed i.chunks ends)).0
  readlines-IsLine now starts self rounds all ends i =
      let s = (line_call self now rounds).1 in
      let left = line_left self now rounds in
      ap (λ x. x.0) (readlines-step now starts self rounds)
      ∙ ap (λ a. (gather_line a (lines_of starts a.1 left)).0)
          (picked-line (line_call self now rounds) i.line i.returns i.before)
      ∙ ap (λ x. x.0) (gather_line-line i.line s (lines_of starts s left))
      ∙ ap (λ u. prepend (i.line ++ line_end) (lines_of starts s u).0) i.left

  readlines-IsRest :
      (now : ℤ) (starts : List ℤ) (self : Spawn M) (rounds : List Round) (all : Text)
      (ends : List ℤ)
      (i : IsRest re r self all ends (line_left self now rounds) (line_call self now rounds))
      → (let s = (line_call self now rounds).1 in
          (lines_of (now ∷ starts) self rounds).0
          ≡ (gather_line (gives (value all), s) (lines_of starts s (ends_feed i.others))).0)
  readlines-IsRest now starts self rounds all ends i =
      let s = (line_call self now rounds).1 in
      let left = line_left self now rounds in
      ap (λ x. x.0) (readlines-step now starts self rounds)
      ∙ ap (λ a. (gather_line a (lines_of starts a.1 left)).0)
          (picked-rest (line_call self now rounds) all i.returns i.before)
      ∙ ap (λ u. (gather_line (gives (value all), s) (lines_of starts s u)).0) i.left

  -- The call behind the last data gives an empty text, which ends the loop.
  readlines_end :
      (now : ℤ) (starts : List ℤ) (self : Spawn M) (t : ℤ) (ends : List ℤ)
      → self.timeout ≡ none
      → self.buffer ≡ []
      → (lines_of (now ∷ starts) self (ends_feed (t ∷ ends))).0 ≡ gathered []
  readlines_end now starts self t ends h empty = elim (line_call-IsRead self now t [] ends h) [
    | inl i ↦ absurd (not_empty i.line _ (i.divides ∙ none_left))
    | inr i ↦
        let s = (line_call self now (ends_feed (t ∷ ends))).1 in
        readlines-IsRest now starts self (ends_feed (t ∷ ends)) _ (t ∷ ends) i
        ∙ ap
            (λ all. (gather_line (gives (value all), s) (lines_of starts s (ends_feed i.others))).0)
            none_left
  ]
    where
      none_left : self.buffer ++ [] ≡ []
      none_left = append-nil self.buffer ∙ empty

      not_empty : (b rest : Text) → b ++ (line_end ++ rest) ≡ [] → ⊥
      not_empty [] rest e = cc
      not_empty (c ∷ b) rest e = cc

  rest-split_lines :
      (starts ends : List ℤ) (u : ℤ) (s : Spawn M) (all : Text)
      → s.timeout ≡ none
      → s.buffer ≡ []
      → length (last_line all) < suc (length starts)
      → (gather_line (gives (value all), s) (lines_of starts s (ends_feed (u ∷ ends)))).0
        ≡ gathered (last_line all)
  rest-split_lines starts ends u s [] h e l = refl
  rest-split_lines [] ends u s (c ∷ all) h e l = absurd (omega arith)
  rest-split_lines (now ∷ starts) ends u s (c ∷ all) h e l =
      ap (prepend (c ∷ all)) (readlines_end now starts s u ends h e)

  -- If the pattern of the line end matches where that text stands, and there alone, and the object has no
  -- timeout: for a child that writes data in any chunks and then closes its terminal, `readlines` gives
  -- the lines of what was in the buffer followed by that data, each with its line end, and the rest
  -- behind the last line end, if there is one. Calls of `readline` for one line more are enough.
  pub readlines-split_lines :
      (starts : List ℤ) (self : Spawn M) (chunks : List (Option Text × ℤ)) (t u : ℤ) (ends : List ℤ)
      → self.timeout ≡ none
      → length (split_lines (self.buffer ++ feed_data chunks)) < length starts
      → (readlines re ignorecase eof_type size_pattern starts self (feed chunks (t ∷ u ∷ ends))).0
        ≡ gathered (split_lines (self.buffer ++ feed_data chunks))
  unfolding split_lines
  readlines-split_lines [] self chunks t u ends h l = absurd (omega arith)
  readlines-split_lines (now ∷ starts) self chunks t u ends h l =
      elim (line_call-IsRead self now t chunks (u ∷ ends) h) [
        | inl i ↦
            let s = (line_call self now (feed chunks (t ∷ u ∷ ends))).1 in
            let lines : split_lines (self.buffer ++ feed_data chunks)
                ≡ (i.line ++ line_end) ∷ split_lines (s.buffer ++ feed_data i.chunks) =
              ap split_lines (sym i.divides)
              ∙ split_from-line [] i.line i.later (s.buffer ++ feed_data i.chunks) i.first in
            let fewer : length (split_lines (s.buffer ++ feed_data i.chunks)) < length starts =
              omega (arith, ap length lines) in
            readlines-IsLine now starts self (feed chunks (t ∷ u ∷ ends)) _ (t ∷ u ∷ ends) i
            ∙ ap (prepend (i.line ++ line_end))
                (readlines-split_lines starts s i.chunks t u ends (i.timeout ∙ h) fewer)
            ∙ ap gathered (sym lines)
        | inr i ↦
            let s = (line_call self now (feed chunks (t ∷ u ∷ ends))).1 in
            let all = self.buffer ++ feed_data chunks in
            let others : i.others ≡ u ∷ ends = cc (i.reads_end) in
            let lines : split_lines all ≡ last_line all = split_from-last [] all i.absent in
            readlines-IsRest now starts self (feed chunks (t ∷ u ∷ ends)) all (t ∷ u ∷ ends) i
            ∙ ap (λ es. (gather_line (gives (value all), s) (lines_of starts s (ends_feed es))).0)
                others
            ∙ rest-split_lines starts ends u s all (i.timeout ∙ h) i.buffer
                (omega (arith, ap length lines, l))
            ∙ ap gathered (sym lines)
      ]
