-- ===== src/Pexpect/Expect/Account.antt =====
-- The data that `expect_loop` reads, and what becomes of it.
use cush.Prelude.{
  ℕ, zero, suc, ◌+◌, ◌-◌, ◌≤◌, ◌≡◌, refl, sym, ap, ◌∙◌, inl, inr, Bool, true, false, Option, none,
  some, List, [], ◌∷◌, ◌++◌, arith, length, drop, take, Option-cases, append_assoc, append-nil,
  take-append-drop,
}
use cush.Prelude.Int.{ℤ}
use cush.Prelude.Text.{Text}
use mathlib.Core.Path.{subst}
use cush.Pexpect.Searcher.{Hit}
use cush.Pexpect.Expect.{
  Exception, deadline, default_timeout, default_window, expect_loop, resolve, Slot, Search, Spawn,
  Read, Round, Outcome, attempt, chunk, closed, empty, end_of_file, failed, failure, fresh, grow,
  handle, loop, nothing, other_error, raised, proceed, remaining, settle, returned, timed_out,
  type_eof, type_timeout, value, waiting,
}

abbrev pub payload : Read → Text
payload (chunk c) = c
payload _ = []

-- The data that the reads of these rounds bring.
abbrev pub received : List Round → Text
received [] = []
received (r ∷ rounds) = payload r.read ++ received rounds

-- How `before`, `after` and `buffer` stand to all the data, and to the buffer there was.
abbrev pub Divides : Text → Text → Option Text → Slot Text → Text → Type 0
Divides old all before (value a) buffer =
    (b : Text) × (before ≡ some b) × (b ++ (a ++ buffer) ≡ all)
Divides old all before type_timeout buffer = (before ≡ some all) × (buffer ≡ all)
Divides old all before type_eof buffer = (before ≡ some all) × (buffer ≡ [])
Divides old all before nothing buffer = (before ≡ some all) × (buffer ≡ old)

-- A searcher whose hits lie within the buffer.
pub record IsWithin {M : Type 0} (searcher : Search M) : Type 0 where
  pub hit_within :
      (b : Text) (freshlen : ℕ) (window : Option ℤ) (h : Hit M)
      → searcher.search b freshlen window ≡ some h
      → (h.start ≤ h.end) × (h.end ≤ length b)

module _ {M : Type 0} (self : Spawn M) where
  abbrev pub Accounted : Text → Outcome × Spawn M → Type 0
  Accounted all (waiting, s) = s ≡ self
  Accounted all (returned i, s) = Divides self.buffer all s.before s.after s.buffer
  Accounted all (raised e, s) = Divides self.buffer all s.before s.after s.buffer

  handle-Accounted :
      (searcher : Search M) (incoming : Text) (e : Exception)
      → Accounted incoming (handle searcher self incoming e)
  handle-Accounted searcher incoming end_of_file = elim (Option-cases searcher.eof_index) [
    | inl p ↦ rw p (refl, refl)
    | inr (i, p) ↦ rw p (refl, refl)
  ]
  handle-Accounted searcher incoming timed_out = elim (Option-cases searcher.timeout_index) [
    | inl p ↦ rw p (refl, refl)
    | inr (i, p) ↦ rw p (refl, refl)
  ]
  handle-Accounted searcher incoming other_error = (refl, refl)

drop-nil {ℓ} : {A : Type ℓ} (n : ℕ) → drop {A = A} n [] ≡ []
drop-nil zero = refl
drop-nil (suc n) = refl

drop-drop {ℓ} : {A : Type ℓ} (m n : ℕ) (xs : List A) → drop m (drop n xs) ≡ drop (n + m) xs
drop-drop m zero xs = let e : zero + m ≡ m = omega arith in rw e
drop-drop m (suc n) [] = drop-nil m ∙ sym (drop-nil (suc n + m))
drop-drop m (suc n) (x ∷ xs) =
    let e : suc n + m ≡ suc (n + m) = omega arith in rw e (drop-drop m n xs)

-- The three parts into which a hit cuts the buffer.
pub slices : (t : Text) (i j : ℕ) → i ≤ j → take i t ++ (take (j - i) (drop i t) ++ drop j t) ≡ t
slices t i j h =
    let e : i + (j - i) ≡ j = omega arith in
    let rest : take (j - i) (drop i t) ++ drop j t ≡ drop i t =
      ap (λ k. take (j - i) (drop i t) ++ drop k t) (sym e)
      ∙ ap (λ u. take (j - i) (drop i t) ++ u) (sym (drop-drop (j - i) i t))
      ∙ take-append-drop (j - i) (drop i t) in
    ap (λ u. take i t ++ u) rest ∙ take-append-drop i t

-- What `P` says of a result, if there is one.
abbrev pub OnSome {ℓ} : {A : Type ℓ} → (A → Type 0) → Option A → Type 0
OnSome P none = Unit
OnSome P (some a) = P a

module _ {M : Type 0} (self : Spawn M) where
  -- The rounds that a run used, and what became of their data.
  abbrev pub AccountedRun : Text → List Round → Outcome × Spawn M → Type 0
  AccountedRun incoming rounds result =
      (used : List Round) × (unread : List Round) × (rounds ≡ used ++ unread)
      × Accounted self (incoming ++ received used) result

  AccountedRun-now :
      (incoming : Text) (rounds : List Round) (result : Outcome × Spawn M)
      → Accounted self incoming result
      → AccountedRun incoming rounds result
  AccountedRun-now incoming rounds result h =
      ([], rounds, refl, subst (λ t. Accounted self t result) (sym (append-nil incoming)) h)

  AccountedRun-later :
      (incoming : Text) (r : Round) (rounds : List Round) (result : Outcome × Spawn M)
      → AccountedRun (grow incoming r.read) rounds result
      → AccountedRun incoming (r ∷ rounds) result
  AccountedRun-later incoming r rounds result (used, unread, e, h) =
      (r ∷ used, unread, ap (◌∷◌ r) e, subst (λ t. Accounted self t result) (grown r.read) h)
    where
      grown :
          (q : Read) → grow incoming q ++ received used ≡ incoming ++ (payload q ++ received used)
      grown (chunk c) = append_assoc incoming c (received used)
      grown closed = refl
      grown empty = refl
      grown (failed e) = refl

module _ {M : Type 0} (searcher : Search M) (valid : IsWithin searcher) (self : Spawn M) where
  settle-Accounted :
      (incoming : Text) (freshlen : ℕ) (window : Option ℤ) (found : Option (Hit M)) (late : Bool)
      → searcher.search incoming freshlen window ≡ found
      → OnSome (Accounted self incoming) (settle searcher self incoming found late)
  settle-Accounted incoming freshlen window (some h) late p = (
    take h.start incoming,
    refl,
    slices incoming h.start h.end (valid.hit_within incoming freshlen window h p).0,
  )
  settle-Accounted incoming freshlen window none true p =
      handle-Accounted self searcher incoming timed_out
  settle-Accounted incoming freshlen window none false p = tt

  proceed-AccountedRun :
      (incoming : Text) (r : Round) (rounds : List Round) (done : Option (Outcome × Spawn M))
      (e : Option Exception) (rest : Outcome × Spawn M)
      → OnSome (Accounted self incoming) done
      → AccountedRun self (grow incoming r.read) rounds rest
      → AccountedRun self incoming (r ∷ rounds) (proceed searcher self incoming done e rest)
  proceed-AccountedRun incoming r rounds (some done) e rest h k =
      AccountedRun-now self incoming (r ∷ rounds) done h
  proceed-AccountedRun incoming r rounds none (some e) rest h k =
      AccountedRun-now self incoming (r ∷ rounds) (handle searcher self incoming e)
        (handle-Accounted self searcher incoming e)
  proceed-AccountedRun incoming r rounds none none rest h k =
      AccountedRun-later self incoming r rounds rest k

  proceed_end-AccountedRun :
      (incoming : Text) (done : Option (Outcome × Spawn M))
      → OnSome (Accounted self incoming) done
      → AccountedRun self incoming [] (proceed searcher self incoming done none (waiting, self))
  proceed_end-AccountedRun incoming (some done) h = AccountedRun-now self incoming [] done h
  proceed_end-AccountedRun incoming none h = AccountedRun-now self incoming [] (waiting, self) refl

  module _ (window end_time : Option ℤ) where
    loop-Accounted :
        (incoming : Text) (freshlen : ℕ) (timeout : Option ℤ) (rounds : List Round)
        → AccountedRun self incoming rounds
            (loop searcher window end_time self incoming freshlen timeout rounds)
    unfolding loop attempt
    loop-Accounted incoming freshlen timeout [] =
        proceed_end-AccountedRun incoming (attempt searcher window self incoming freshlen timeout)
          (settle-Accounted incoming freshlen window _ _ refl)
    loop-Accounted incoming freshlen timeout (r ∷ rounds) =
        proceed-AccountedRun incoming r rounds
          (attempt searcher window self incoming freshlen timeout) (failure r.read) _
          (settle-Accounted incoming freshlen window _ _ refl)
          (loop-Accounted (grow incoming r.read) (fresh freshlen r.read) (remaining end_time r.now)
            rounds)

  -- Whatever ends `expect_loop`, the data it has read stands behind the buffer there was and is
  -- accounted for. On a match `before`, `after` and the new buffer are, in this order, all of it. On a
  -- timeout `before` and the buffer are all of it, so that the next call searches it again. At the end
  -- of the file `before` is all of it and the buffer is empty. On another exception `before` is all of
  -- it and the buffer is the old one. A loop that still waits has changed nothing.
  pub expect_loop-AccountedRun :
      (timeout searchwindowsize : Option ℤ) (now : ℤ) (rounds : List Round)
      → AccountedRun self self.buffer rounds
          (expect_loop searcher self timeout searchwindowsize now rounds)
  unfolding expect_loop
  expect_loop-AccountedRun timeout searchwindowsize now rounds =
      let t = resolve default_timeout self.timeout timeout in
      loop-Accounted (resolve default_window self.searchwindowsize searchwindowsize)
        (deadline now t) self.buffer (length self.buffer) t rounds
