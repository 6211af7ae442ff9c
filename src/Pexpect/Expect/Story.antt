-- ===== src/Pexpect/Expect/Story.antt =====
-- The rounds of a call of `expect_loop`: those that it leaves unread, and what happens in each.
use cush.Prelude.{ℕ, ◌≡◌, refl, Bool, true, false, Option, none, some, List, [], ◌∷◌, length}
use cush.Prelude.Int.{ℤ, ◌+ℤ◌}
use cush.Prelude.Text.{Text}
use cush.Pexpect.Searcher.{Hit}
use cush.Pexpect.Expect.{
  Exception, Outcome, Round, Search, Spawn, attempt, deadline, default_timeout, default_window,
  expect_loop, expired, failure, fresh, grow, handle, loop, proceed, remaining, resolve, settle,
  succeed, timed_out, waiting,
}

-- The rounds behind a round: they are left if the loop ends in it, and it is left too if the loop ends
-- before its read.
abbrev pub leave :
    {M : Type 0}
    → Option (Outcome × Spawn M)
    → Option Exception
    → Round
    → List Round
    → List Round
    → List Round
leave (some done) e r rounds rest = r ∷ rounds
leave none (some e) r rounds rest = rounds
leave none none r rounds rest = rest

module _ {M : Type 0} (searcher : Search M) (window end_time : Option ℤ) (self : Spawn M) where
  unfoldable pub loop_unread : Text → ℕ → Option ℤ → List Round → List Round
  loop_unread incoming freshlen timeout [] = []
  loop_unread incoming freshlen timeout (r ∷ rounds) =
      leave (attempt searcher window self incoming freshlen timeout) (failure r.read) r rounds (
        loop_unread (grow incoming r.read) (fresh freshlen r.read) (remaining end_time r.now)
          rounds)

  -- What happens round by round, to the text that is searched, until the loop ends with a result.
  pub data Story : Text → List Round → List Round → Outcome × Spawn M → Type 0 where
    hit :
        {incoming : Text} {rounds : List Round} (freshlen : ℕ) (h : Hit M)
        → searcher.search incoming freshlen window ≡ some h
        → Story incoming rounds rounds (succeed self incoming h)
    late :
        {incoming : Text} {rounds : List Round} (freshlen : ℕ) (t : ℤ)
        → end_time ≡ some t
        → searcher.search incoming freshlen window ≡ none
        → Story incoming rounds rounds (handle searcher self incoming timed_out)
    fails :
        {incoming : Text} {rounds : List Round} (freshlen : ℕ) (r : Round) (e : Exception)
        → failure r.read ≡ some e
        → searcher.search incoming freshlen window ≡ none
        → Story incoming (r ∷ rounds) rounds (handle searcher self incoming e)
    waits :
        {incoming : Text} (freshlen : ℕ)
        → searcher.search incoming freshlen window ≡ none
        → Story incoming [] [] (waiting, self)
    reads :
        {incoming : Text} {rounds unread : List Round} {result : Outcome × Spawn M} (freshlen : ℕ)
        (r : Round)
        → failure r.read ≡ none
        → searcher.search incoming freshlen window ≡ none
        → Story (grow incoming r.read) rounds unread result
        → Story incoming (r ∷ rounds) unread result

  -- There is a time left to compare with only where there is a deadline.
  abbrev pub IsTimed : Option ℤ → Type 0
  IsTimed none = Unit
  IsTimed (some t) = (e : ℤ) × (end_time ≡ some e)

  remaining-IsTimed : (o : Option ℤ) (now : ℤ) → end_time ≡ o → IsTimed (remaining o now)
  remaining-IsTimed none now e = tt
  remaining-IsTimed (some t) now e = (t, e)

  late-Story :
      (incoming : Text) (freshlen : ℕ) (timeout : Option ℤ) (rounds : List Round)
      → IsTimed timeout
      → expired timeout ≡ true
      → searcher.search incoming freshlen window ≡ none
      → Story incoming rounds rounds (handle searcher self incoming timed_out)
  late-Story incoming freshlen none rounds t e p = absurd cc
  late-Story incoming freshlen (some s) rounds (t, q) e p = late freshlen t q p

  proceed-Story :
      (incoming : Text) (freshlen : ℕ) (timeout : Option ℤ) (r : Round) (rounds unread : List Round)
      (rest : Outcome × Spawn M) (found : Option (Hit M)) (over : Bool) (e : Option Exception)
      → IsTimed timeout
      → searcher.search incoming freshlen window ≡ found
      → expired timeout ≡ over
      → failure r.read ≡ e
      → Story (grow incoming r.read) rounds unread rest
      → Story incoming
          (r ∷ rounds)
          (leave (settle searcher self incoming found over) e r rounds unread)
          (proceed searcher self incoming (settle searcher self incoming found over) e rest)
  proceed-Story incoming freshlen timeout r rounds unread rest (some h) over e t p q s k =
      hit freshlen h p
  proceed-Story incoming freshlen timeout r rounds unread rest none true e t p q s k =
      late-Story incoming freshlen timeout (r ∷ rounds) t q p
  proceed-Story incoming freshlen timeout r rounds unread rest none false (some e) t p q s k =
      fails freshlen r e s p
  proceed-Story incoming freshlen timeout r rounds unread rest none false none t p q s k =
      reads freshlen r s p k

  end-Story :
      (incoming : Text) (freshlen : ℕ) (timeout : Option ℤ) (found : Option (Hit M)) (over : Bool)
      → IsTimed timeout
      → searcher.search incoming freshlen window ≡ found
      → expired timeout ≡ over
      → Story incoming [] [] (
          proceed searcher self incoming
            (settle searcher self incoming found over)
            none
            (waiting, self))
  end-Story incoming freshlen timeout (some h) over t p q = hit freshlen h p
  end-Story incoming freshlen timeout none true t p q =
      late-Story incoming freshlen timeout [] t q p
  end-Story incoming freshlen timeout none false t p q = waits freshlen p

  loop-Story :
      (incoming : Text) (freshlen : ℕ) (timeout : Option ℤ) (rounds : List Round)
      → IsTimed timeout
      → Story incoming rounds
          (loop_unread incoming freshlen timeout rounds)
          (loop searcher window end_time self incoming freshlen timeout rounds)
  unfolding loop loop_unread attempt
  loop-Story incoming freshlen timeout [] t =
      end-Story incoming freshlen timeout (searcher.search incoming freshlen window)
        (expired timeout) t refl refl
  loop-Story incoming freshlen timeout (r ∷ rounds) t =
      proceed-Story incoming freshlen timeout r rounds _ _
        (searcher.search incoming freshlen window) (expired timeout) (failure r.read) t refl refl
        refl
        (loop-Story (grow incoming r.read) (fresh freshlen r.read) (remaining end_time r.now) rounds
          (remaining-IsTimed end_time r.now refl))

module _ {M : Type 0} (searcher : Search M) (self : Spawn M) (timeout searchwindowsize : Option ℤ)
    (now : ℤ) where
  -- The rounds that a call of `expect_loop` does not read.
  unfoldable pub unread : List Round → List Round
  unfolding loop_unread attempt
  unread rounds =
      let t = resolve default_timeout self.timeout timeout in
      loop_unread searcher (resolve default_window self.searchwindowsize searchwindowsize)
        (deadline now t) self self.buffer (length self.buffer) t rounds

  pub expect_loop-Story :
      (rounds : List Round)
      → Story searcher
          (resolve default_window self.searchwindowsize searchwindowsize)
          (deadline now (resolve default_timeout self.timeout timeout))
          self
          self.buffer
          rounds
          (unread rounds)
          (expect_loop searcher self timeout searchwindowsize now rounds)
  unfolding unread expect_loop
  expect_loop-Story rounds =
      let t = resolve default_timeout self.timeout timeout in
      loop-Story searcher (resolve default_window self.searchwindowsize searchwindowsize)
        (deadline now t) self self.buffer (length self.buffer) t rounds (start t)
    where
      start :
          (t : Option ℤ)
          → IsTimed searcher
              (resolve default_window self.searchwindowsize searchwindowsize)
              (deadline now t)
              self
              t
      start none = tt
      start (some s) = (now +ℤ s, refl)
