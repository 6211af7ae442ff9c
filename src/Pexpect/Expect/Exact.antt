-- ===== src/Pexpect/Expect/Exact.antt =====
-- The match of `expect_exact`, over all the rounds of `expect_loop`.
use mathlib.Core.Path.{subst, subst₂}
use cush.Prelude.{
  ℕ, suc, ◌-◌, ◌<◌, ◌≡◌, ◌≢◌, refl, sym, ap, ◌∙◌, inl, inr, Bool, true, false, Option, none, some,
  List, [], ◌∷◌, ◌++◌, arith, length, drop, take, All, Option-cases, ◌||◌, length-append,
  length-take,
}
use cush.Prelude.Int.{ℤ}
use cush.Prelude.Text.{Text, starts_with, contains}
use cush.Pexpect.Searcher.{Hit, Item, init, search_string}
use cush.Pexpect.Searcher.Find.{NoneBefore}
use cush.Pexpect.Searcher.Window.{old_data, search_string-fresh}
use cush.Pexpect.Searcher.Leftmost.{AbsentBefore, FirstMatch, IsFirst, search_string-FirstMatch}
use cush.Pexpect.Expect.{
  Exception, Slot, Search, Spawn, Read, Round, Outcome, PatternList, as_list, attempt, chunk,
  deadline, default_timeout, default_window, end_of_file, expect_exact, expired, failure, fresh,
  grow, handle, loop, other_error, proceed, raised, remaining, resolve, returned, settle, succeed,
  string_searcher, timed_out, value, waiting,
}
use cush.Pexpect.Searcher.Within.{HitWithin, search_string-HitWithin}
use cush.Pexpect.Expect.Account.{AccountedRun, IsWithin, expect_loop-AccountedRun, slices}

pub take-starts_with : (s t : Text) → starts_with s t ≡ true → take (length s) t ≡ s
take-starts_with [] t h = refl
take-starts_with (x ∷ s) [] h = cc
take-starts_with (x ∷ s) (y ∷ t) h = ground (arith, take-starts_with s t)

-- A text that begins nowhere is absent.
pub contains_none : (s t : Text) → s ≢ [] → NoneBefore s t (length t) → contains s t ≡ false
unfolding contains
contains_none [] t ne h = absurd (ne refl)
contains_none (x ∷ s) [] ne h = refl
contains_none (x ∷ s) (y ∷ t) ne h =
    let first : starts_with (x ∷ s) (y ∷ t) ≡ false = h 0 (omega arith) in
    rw (first, ◌||◌) (contains_none (x ∷ s) t ne (λ n l. h (suc n) (omega arith)))

abbrev pub AllSearchable : List (ℕ × Text) → Type 0
AllSearchable strings = All (λ s. s.1 ≢ []) strings

abbrev AllAbsent : Text → List (ℕ × Text) → Type 0
AllAbsent t strings = All (λ s. contains s.1 t ≡ false) strings

AllAbsent-AbsentBefore :
    (t : Text) (strings : List (ℕ × Text))
    → AllSearchable strings
    → AbsentBefore t (length t) strings
    → AllAbsent t strings
AllAbsent-AbsentBefore t [] ne h = tt
AllAbsent-AbsentBefore t ((i, s) ∷ rest) (n, ne) (a, h) =
    (contains_none s t n a, AllAbsent-AbsentBefore t rest ne h)

take-append : {A : Type 0} (xs ys : List A) → take (length xs) (xs ++ ys) ≡ xs
take-append [] ys = refl
take-append (x ∷ xs) ys = ap (◌∷◌ x) (take-append xs ys)

pub old_data-append : (t c : Text) → old_data (t ++ c) (length c) ≡ t
old_data-append t c =
    let e : length (t ++ c) - length c ≡ length t = omega (arith, length-append t c) in
    rw e (take-append t c)

module _ (strings : List (ℕ × Text)) where
  abbrev pub AbsentIn : Option Text → Type 0
  AbsentIn none = ⊥
  AbsentIn (some d) = AbsentBefore d (length d) strings

  -- What `before`, `after`, `match` and the buffer say of the strings that were sought.
  abbrev pub FindsIn : ℕ → Slot Text → Spawn Text → Type 0
  FindsIn i (value a) s =
      (b : Text) × (s.before ≡ some b)
      × (s.match ≡ value a)
      × IsFirst strings (b ++ (a ++ s.buffer)) (length b) i a
  FindsIn i _ s = AbsentIn s.before

  abbrev pub Finds : Outcome × Spawn Text → Type 0
  Finds (waiting, s) = Unit
  Finds (returned i, s) = FindsIn i s.after s
  Finds (raised e, s) = AbsentIn s.before

  hit-Finds :
      (self : Spawn Text) (incoming : Text) (h : Hit Text)
      → FirstMatch strings incoming (some h)
      → FindsIn h.index
          (value (take (h.end - h.start) (drop h.start incoming)))
          (succeed self incoming h).1
  hit-Finds self incoming h (f, e) =
      let b : Text = take h.start incoming in
      let a : Text = take (h.end - h.start) (drop h.start incoming) in
      let inside : h.start < length incoming = f.in_range in
      let width : h.end - h.start ≡ length h.match = omega arith in
      let same : a ≡ h.match =
        ap (λ n. take n (drop h.start incoming)) width
        ∙ take-starts_with h.match (drop h.start incoming) f.occurs in
      let at : length b ≡ h.start = omega (arith, length-take h.start incoming) in
      let whole : b ++ (a ++ drop h.end incoming) ≡ incoming =
        slices incoming h.start h.end (omega arith) in
      (
        b,
        refl,
        ap value (sym same),
        subst (λ t. IsFirst strings t (length b) h.index a) (sym whole)
            (subst₂ (λ n m. IsFirst strings incoming n h.index m) (sym at) (sym same) f),
      )

  module _ (searcher : Search Text) (self : Spawn Text) where
    handle-Finds :
        (incoming : Text) (e : Exception)
        → AbsentBefore incoming (length incoming) strings
        → Finds (handle searcher self incoming e)
    handle-Finds incoming end_of_file h = elim (Option-cases searcher.eof_index) [
      | inl p ↦ rw p h
      | inr (i, p) ↦ rw p h
    ]
    handle-Finds incoming timed_out h = elim (Option-cases searcher.timeout_index) [
      | inl p ↦ rw p h
      | inr (i, p) ↦ rw p h
    ]
    handle-Finds incoming other_error h = h

    -- A round, from what its search says; the later rounds may use that the search failed.
    proceed-Finds :
        (incoming : Text) (found : Option (Hit Text)) (late : Bool) (e : Option Exception)
        (rest : Outcome × Spawn Text)
        → FirstMatch strings incoming found
        → (AbsentBefore incoming (length incoming) strings → e ≡ none → Finds rest)
        → Finds (proceed searcher self incoming (settle searcher self incoming found late) e rest)
    proceed-Finds incoming (some h) late e rest f k = hit-Finds self incoming h f
    proceed-Finds incoming none true e rest f k = handle-Finds incoming timed_out f
    proceed-Finds incoming none false (some e) rest f k = handle-Finds incoming e f
    proceed-Finds incoming none false none rest f k = k f refl

  module _ (ne : AllSearchable strings) where
    -- What is old at the next search is absent of the strings.
    grow-AllAbsent :
        (incoming : Text) (freshlen : ℕ) (q : Read)
        → AllAbsent (old_data incoming freshlen) strings
        → AbsentBefore incoming (length incoming) strings
        → AllAbsent (old_data (grow incoming q) (fresh freshlen q)) strings
    grow-AllAbsent incoming freshlen (chunk c) o h =
        rw (old_data-append incoming c) (AllAbsent-AbsentBefore incoming strings ne h)
    grow-AllAbsent incoming freshlen _ o h = o

    pub search-FirstMatch :
        (incoming : Text) (freshlen : ℕ)
        → AllAbsent (old_data incoming freshlen) strings
        → FirstMatch strings incoming (search_string strings incoming freshlen none)
    search-FirstMatch incoming freshlen o =
        rw (search_string-fresh strings incoming freshlen o)
          (search_string-FirstMatch strings incoming)

    module _ (eof_index timeout_index : Option ℕ) (self : Spawn Text) (end_time : Option ℤ) where
      abbrev searcher_of : Search Text
      searcher_of = record {
        search = search_string strings;
        eof_index = eof_index;
        timeout_index = timeout_index;
      }

      loop-Finds :
          (incoming : Text) (freshlen : ℕ) (timeout : Option ℤ) (rounds : List Round)
          → AllAbsent (old_data incoming freshlen) strings
          → Finds (loop searcher_of none end_time self incoming freshlen timeout rounds)
      unfolding loop attempt
      loop-Finds incoming freshlen timeout [] o =
          proceed-Finds searcher_of self incoming (search_string strings incoming freshlen none)
            (expired timeout) none (waiting, self) (search-FirstMatch incoming freshlen o)
            (λ h e. tt)
      loop-Finds incoming freshlen timeout (r ∷ rounds) o =
          proceed-Finds searcher_of self incoming (search_string strings incoming freshlen none)
            (expired timeout) (failure r.read) _ (search-FirstMatch incoming freshlen o)
            (λ h e.
              loop-Finds (grow incoming r.read) (fresh freshlen r.read) (remaining end_time r.now)
                rounds (grow-AllAbsent incoming freshlen r.read o h))

pub contains_empty : (s : Text) → s ≢ [] → contains s [] ≡ false
unfolding contains
contains_empty [] ne = absurd (ne refl)
contains_empty (x ∷ s) ne = refl

AllAbsent-nil : (strings : List (ℕ × Text)) → AllSearchable strings → AllAbsent [] strings
AllAbsent-nil [] ne = tt
AllAbsent-nil ((i, s) ∷ rest) (n, ne) = (contains_empty s n, AllAbsent-nil rest ne)

pub old_data-length : (t : Text) → old_data t (length t) ≡ []
old_data-length t = let e : length t - length t ≡ 0 = omega arith in rw e

-- With no search window and no empty pattern, `expect_exact` returns a match only at the first
-- position of all the data read so far (`before`, `after`, buffer) at which one of the patterns stands,
-- and of the patterns that stand there it is the first of the list. Where it reports a timeout, the end
-- of the file or another exception instead, none of the patterns stands anywhere in that data.
pub expect_exact-Finds :
    (pattern_list : PatternList) (self : Spawn Text) (timeout searchwindowsize : Option ℤ) (now : ℤ)
    (rounds : List Round)
    → resolve default_window self.searchwindowsize searchwindowsize ≡ none
    → AllSearchable (init (as_list pattern_list)).searches
    → Finds
        (init (as_list pattern_list)).searches
        (expect_exact pattern_list self timeout searchwindowsize now rounds)
unfolding expect_exact
expect_exact-Finds pattern_list self timeout searchwindowsize now rounds w ne =
    let patterns = as_list pattern_list in
    let t = resolve default_timeout self.timeout timeout in
    let old : AllAbsent (old_data self.buffer (length self.buffer)) (init patterns).searches =
      rw old_data-length (AllAbsent-nil (init patterns).searches ne) in
    rw w (
      loop-Finds (init patterns).searches ne (init patterns).eof_index (init patterns).timeout_index
        self (deadline now t) self.buffer (length self.buffer) t rounds old)

string_searcher-IsWithin : (patterns : List (Item Text)) → IsWithin (string_searcher patterns)
string_searcher-IsWithin patterns = record {
  hit_within = λ b freshlen window h e.
      subst (HitWithin b) e (search_string-HitWithin (init patterns).searches b freshlen window);
}

-- Some of the rounds are used, in their order. Of what the object's buffer held and these rounds brought: a match
-- leaves it as `before`, `after` and the new buffer, one behind the other; a timeout leaves all of it as
-- `before` and also as the buffer; the end of the file leaves all of it as `before`, with an empty buffer; and any
-- other exception leaves all of it as `before`, with the buffer from before the call. A call that still waits has
-- changed nothing.
pub expect_exact-AccountedRun :
    (pattern_list : PatternList) (self : Spawn Text) (timeout searchwindowsize : Option ℤ) (now : ℤ)
    (rounds : List Round)
    → AccountedRun self self.buffer rounds
        (expect_exact pattern_list self timeout searchwindowsize now rounds)
unfolding expect_exact
expect_exact-AccountedRun pattern_list self =
    expect_loop-AccountedRun (string_searcher (as_list pattern_list))
      (string_searcher-IsWithin (as_list pattern_list)) self
