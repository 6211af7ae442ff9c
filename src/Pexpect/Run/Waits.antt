-- ===== src/Pexpect/Run/Waits.antt =====
-- Calls of `expect_loop` with a timeout and a searcher that finds nothing.
use cush.Prelude.{
  ℕ, ◌≡◌, refl, inl, inr, true, false, Option, none, some, List, [], ◌∷◌, ◌++◌, length, Bool-cases,
  ◌==◌,
}
use cush.Prelude.Int.{ℤ, pos, ◌+ℤ◌, ◌-ℤ◌, is_negative}
use cush.Prelude.Text.{Text}
use cush.Pexpect.Searcher.{add_items, init, timeout}
use cush.Pexpect.Expect.{
  Round, Search, Spawn, attempt, chunk, default_timeout, end_of_file, expect_loop, failed, handle,
  loop, returned, type_timeout,
}
use cush.Pexpect.Expect.Story.{loop_unread, unread}
use cush.Pexpect.Pattern.{Re, search_each, search_re, searcher_re}
use cush.Pexpect.Run.{}

-- A searcher that finds nothing, with TIMEOUT at index 0.
pub record WaitsOnly {M : Type 0} (searcher : Search M) : Type 0 where
  pub absent :
      (b : Text) (freshlen : ℕ) (window : Option ℤ) → searcher.search b freshlen window ≡ none
  pub timeout_first : searcher.timeout_index ≡ some 0
  pub no_eof : searcher.eof_index ≡ none

-- The object with this timeout.
abbrev pub with_timeout : {M : Type 0} → ℕ → Spawn M → Spawn M
with_timeout n child = record child { timeout = some (pos n) }

-- The object behind a timeout.
abbrev pub waited : {M : Type 0} → Spawn M → Text → Spawn M
waited child all = record child {
  buffer = all;
  before = some all;
  after = type_timeout;
  match = type_timeout;
  match_index = some 0;
}

module _ {M : Type 0} (searcher : Search M) (w : WaitsOnly searcher) (self : Spawn M)
    (window end_time : Option ℤ) where
  attempt_late :
      (incoming : Text) (freshlen : ℕ) (t : ℤ)
      → is_negative t ≡ true
      → attempt searcher window self incoming freshlen (some t)
        ≡ some (returned 0, waited self incoming)
  unfolding attempt
  attempt_late incoming freshlen t h =
      rw (w.absent incoming freshlen window) (rw h (rw w.timeout_first refl))

  attempt_early :
      (incoming : Text) (freshlen : ℕ) (t : ℤ)
      → is_negative t ≡ false
      → attempt searcher window self incoming freshlen (some t) ≡ none
  unfolding attempt
  attempt_early incoming freshlen t h = rw (w.absent incoming freshlen window) (rw h refl)

  loop_late :
      (incoming : Text) (freshlen : ℕ) (t : ℤ) (rounds : List Round)
      → is_negative t ≡ true
      → (loop searcher window end_time self incoming freshlen (some t) rounds
          ≡ (returned 0, waited self incoming))
        × (loop_unread searcher window end_time self incoming freshlen (some t) rounds ≡ rounds)
  unfolding loop loop_unread
  loop_late incoming freshlen t [] h = (rw (attempt_late incoming freshlen t h) refl, refl)
  loop_late incoming freshlen t (r ∷ rounds) h =
      (rw (attempt_late incoming freshlen t h) refl, rw (attempt_late incoming freshlen t h) refl)

  loop_eof :
      (incoming : Text) (freshlen : ℕ) (t u : ℤ) (rounds : List Round)
      → is_negative t ≡ false
      → loop searcher window end_time self incoming freshlen
          (some t)
          (record { read = failed end_of_file; now = u } ∷ rounds)
        ≡ handle searcher self incoming end_of_file
  unfolding loop
  loop_eof incoming freshlen t u rounds h = rw (attempt_early incoming freshlen t h) refl

module _ {M : Type 0} (searcher : Search M) (w : WaitsOnly searcher) (n : ℕ) (child : Spawn M) where
  -- The call reads some data, and by then its time is over.
  pub call_late :
      (now late : ℤ) (d : Text) (rounds : List Round)
      → is_negative ((now +ℤ pos n) -ℤ late) ≡ true
      → (let self = with_timeout n child in
          let all = child.buffer ++ d in
          let first = record { read = chunk d; now = late } ∷ rounds in
          (expect_loop searcher self (some default_timeout) none now first
            ≡ (returned 0, waited self all))
          × (unread searcher self (some default_timeout) none now first ≡ rounds))
  unfolding expect_loop loop unread loop_unread
  call_late now late d rounds h =
      let self = with_timeout n child in
      let later =
        loop_late searcher w self none (some (now +ℤ pos n)) (child.buffer ++ d) (length d)
          ((now +ℤ pos n) -ℤ late) rounds h in
      let on_time =
        attempt_early searcher w self none none child.buffer (length child.buffer) (pos n) refl in
      (rw on_time later.0, rw on_time later.1)

  -- The call reads some data, in time, and then meets the end of the file.
  pub call_eof :
      (now early t : ℤ) (e : Text)
      → is_negative ((now +ℤ pos n) -ℤ early) ≡ false
      → (let self = with_timeout n child in
          expect_loop searcher self (some default_timeout) none now (
            record { read = chunk e; now = early }
            ∷ record { read = failed end_of_file; now = t }
            ∷ [])
          ≡ handle searcher self (child.buffer ++ e) end_of_file)
  unfolding expect_loop loop
  call_eof now early t e h =
      let self = with_timeout n child in
      let on_time =
        attempt_early searcher w self none none child.buffer (length child.buffer) (pos n) refl in
      rw on_time (
        loop_eof searcher w self none (some (now +ℤ pos n)) (child.buffer ++ e) (length e)
          ((now +ℤ pos n) -ℤ early) t [] h)

module _ {R M : Type 0} (re : Re R M) where
  search_re-nil :
      (b : Text) (freshlen : ℕ) (window : Option ℤ) → search_re re [] b freshlen window ≡ none
  unfolding search_re search_each
  search_re-nil b freshlen window = elim (Bool-cases (length b == length b)) [
    | inl p ↦ rw p refl
    | inr p ↦ rw p refl
  ]

  pub timeout-WaitsOnly : WaitsOnly (searcher_re re (timeout ∷ []))
  unfolding init add_items
  timeout-WaitsOnly = record { absent = search_re-nil; timeout_first = refl; no_eof = refl }
