-- ===== src/Pexpect/Run/Pass.antt =====
-- A pass of the loop of `run`, for a child that writes some data and then closes its terminal.
use mathlib.Core.Path.{subst}
use cush.Prelude.{
  ℕ, zero, suc, ◌+◌, ◌≤◌, ◌<◌, ◌≡◌, refl, sym, ap, ◌∙◌, Bool, Option, none, some, List, [], ◌∷◌,
  ◌++◌, arith, All, length, append_assoc, append-nil,
}
use cush.Prelude.Int.{ℤ}
use cush.Prelude.Text.{Text}
use cush.Pexpect.Searcher.{Item, Searcher, add_item, add_items, eof, init, item, timeout}
use cush.Pexpect.Expect.{
  Outcome, Round, Spawn, deadline, default_timeout, default_window, expect_loop, resolve,
}
use cush.Pexpect.Expect.Story.{Story, expect_loop-Story, unread}
use cush.Pexpect.Expect.Feed.{IsFed, Story-IsFed, feed, feed_data}
use cush.Pexpect.Pattern.{
  Compiled, Pattern, Patterns, Re, compile_pattern, compile_pattern_list, compile_patterns,
  compiles, expect, expect_list, regex_error, searcher_re, several, type_error, ◌>>=◌,
}
use cush.Pexpect.Sending.{Terminal}
use cush.Pexpect.Run.{
  Reaction, Response, Running, Stage, again, callback, element, expect_left, glue, goes_on, joined,
  other_response, pass, react, reply, respond, send_text, sends, stops, take_compiled, take_event,
  throws,
}

-- Every pattern to search for has an index below the length of the list.
abbrev pub InRange : {A : Type 0} → ℕ → List (ℕ × A) → Type 0
InRange n searches = All (λ s. s.0 < n) searches

module _ {A : Type 0} where
  InRange-mono : (m n : ℕ) (l : List (ℕ × A)) → m ≤ n → InRange m l → InRange n l
  InRange-mono m n [] h a = tt
  InRange-mono m n (x ∷ l) h (a, rest) = (omega arith, InRange-mono m n l h rest)

  InRange-concat :
      (n : ℕ) (l : List (ℕ × A)) (a : A) → InRange n l → InRange (n + 1) (l ++ (n, a) ∷ [])
  InRange-concat n [] a h = (omega arith, tt)
  InRange-concat n (x ∷ l) a (h, rest) = (omega arith, InRange-concat n l a rest)

  pub InRange-append :
      (n : ℕ) (l : List (ℕ × A)) (i : ℕ) (a : A) (m : List (ℕ × A))
      → InRange n (l ++ (i, a) ∷ m)
      → i < n
  InRange-append n [] i a m (h, rest) = h
  InRange-append n (x ∷ l) i a m (h, rest) = InRange-append n l i a m rest

  add_items-InRange :
      (self : Searcher A) (n : ℕ) (ps : List (Item A))
      → InRange n self.searches
      → InRange (n + length ps) (add_items self n ps).searches
  unfolding add_items
  add_items-InRange self n [] h = InRange-mono n (n + 0) self.searches (omega arith) h
  add_items-InRange self n (p ∷ ps) h =
      let e : n + 1 + length ps ≡ n + suc (length ps) = omega arith in
      subst (λ k. InRange k (add_items (add_item self n p) (n + 1) ps).searches) e
        (add_items-InRange (add_item self n p) (n + 1) ps (added p))
    where
      added : (q : Item A) → InRange (n + 1) (add_item self n q).searches
      added eof = InRange-mono n (n + 1) self.searches (omega arith) h
      added timeout = InRange-mono n (n + 1) self.searches (omega arith) h
      added (item s) = InRange-concat n self.searches s h

  pub init-InRange : (items : List (Item A)) → InRange (length items) (init items).searches
  unfolding init
  init-InRange items =
      let e : 0 + length items ≡ length items = omega arith in
      subst (λ k. InRange k (init items).searches) e (add_items-InRange _ 0 items tt)

  pub element-All :
      {P : A → Type 0} (n : ℕ) (l : List A)
      → All P l
      → n < length l
      → (a : A) × ((element n l ≡ some a) × P a)
  element-All n [] h b = absurd (omega arith)
  element-All zero (a ∷ l) (p, h) b = (a, (refl, p))
  element-All (suc n) (a ∷ l) (p, h) b = element-All n l h (omega arith)

pub glue_assoc : (a b c : Option Text) → glue (glue a b) c ≡ glue a (glue b c)
glue_assoc none b c = refl
glue_assoc (some a) none c = refl
glue_assoc (some a) (some b) none = refl
glue_assoc (some a) (some b) (some c) = ap some (append_assoc a b c)

glue-nil : (a : Option Text) → glue a (some []) ≡ a
glue-nil none = refl
glue-nil (some a) = ap some (append-nil a)

glue_nil_left : (a : Option Text) → glue (some []) a ≡ a
glue_nil_left none = refl
glue_nil_left (some a) = refl

-- The text of the list with one more entry.
pub joined-append :
    (l : List (Option Text)) (o : Option Text) → joined (l ++ o ∷ []) ≡ glue (joined l) o
joined-append [] o = glue-nil o ∙ sym (glue_nil_left o)
joined-append (x ∷ l) o = ap (glue x) (joined-append l o) ∙ sym (glue_assoc x (joined l) o)

module _ {W M : Type 0} where
  -- A callback that leaves the child and the output alone and does not end the run.
  abbrev pub Keeps : Running W M → Running W M → Type 0
  Keeps r s =
      (s.child ≡ r.child) × ((s.rounds ≡ r.rounds) × (s.child_result_list ≡ r.child_result_list))

  abbrev pub GoesOn : Running W M → Reaction × Running W M → Type 0
  GoesOn r (sends t, s) = Keeps r s
  GoesOn r (goes_on, s) = Keeps r s
  GoesOn r (stops, s) = ⊥
  GoesOn r (throws e, s) = ⊥

  -- A response that is a text, or such a callback.
  abbrev pub IsQuiet : Response W M → Type 0
  IsQuiet (reply t) = Unit
  IsQuiet (callback f) = (r : Running W M) → GoesOn r (f r)
  IsQuiet other_response = ⊥

module _ {R M : Type 0} (re : Re R M) where
  -- No match of one of these patterns is empty.
  abbrev pub NeverEmpty : List (ℕ × R) → Type 0
  NeverEmpty searches =
      All
        (λ s. (b : Text) (from : ℕ) (m : M) → re.search s.1 b from ≡ some m → re.start m < re.end m)
        searches

  pub NeverEmpty-append :
      (earlier : List (ℕ × R)) (s : ℕ × R) (later : List (ℕ × R))
      → NeverEmpty (earlier ++ s ∷ later)
      → (b : Text) (from : ℕ) (m : M) → re.search s.1 b from ≡ some m
      → re.start m < re.end m
  NeverEmpty-append [] s later (h, rest) = h
  NeverEmpty-append (x ∷ earlier) s later (h, rest) = NeverEmpty-append earlier s later rest

  abbrev Sized : {A : Type 0} → ℕ → Compiled (List A) → Type 0
  Sized n (compiles l) = length l ≡ n
  Sized n type_error = Unit
  Sized n regex_error = Unit

  Sized-bind :
      (first : Compiled (Item R)) (rest : Compiled (List (Item R))) (n : ℕ)
      → Sized n rest
      → Sized (suc n) (first >>= λ i. rest >>= λ is. compiles (i ∷ is))
  Sized-bind (compiles i) (compiles is) n h = ap suc h
  Sized-bind (compiles i) type_error n h = tt
  Sized-bind (compiles i) regex_error n h = tt
  Sized-bind type_error rest n h = tt
  Sized-bind regex_error rest n h = tt

  compile_patterns-Sized :
      (ignorecase : Bool) (ps : List (Pattern R))
      → Sized (length ps) (compile_patterns re ignorecase ps)
  unfolding compile_patterns
  compile_patterns-Sized ignorecase [] = refl
  compile_patterns-Sized ignorecase (p ∷ ps) =
      Sized-bind (compile_pattern re ignorecase p) (compile_patterns re ignorecase ps) (length ps)
        (compile_patterns-Sized ignorecase ps)

  pub compile_pattern_list-length :
      (ignorecase : Bool) (ps : List (Pattern R)) (items : List (Item R))
      → compile_pattern_list re ignorecase (several ps) ≡ compiles items
      → length items ≡ length ps
  unfolding compile_pattern_list
  compile_pattern_list-length ignorecase ps items h =
      subst (Sized (length ps)) h (compile_patterns-Sized ignorecase ps)

module _ {R W M : Type 0} (re : Re R M) (ignorecase : Bool) (terminal : Terminal W)
    (linesep : Text) where
  abbrev pub GoesAgain : Running W M → Stage × Running W M → Type 0
  GoesAgain r (stage, s) = (stage ≡ again) × Keeps r s

  react-GoesAgain :
      (r : Running W M) (x : Reaction × Running W M)
      → GoesOn r x
      → GoesAgain r (react re ignorecase terminal linesep x)
  unfolding send_text
  react-GoesAgain r (sends t, s) h = (refl, h)
  react-GoesAgain r (goes_on, s) h = (refl, h)
  react-GoesAgain r (stops, s) h = absurd h
  react-GoesAgain r (throws e, s) h = absurd h

  pub respond-GoesAgain :
      (response : Response W M) (r : Running W M)
      → IsQuiet response
      → GoesAgain r (respond re ignorecase terminal linesep (some response) r)
  unfolding send_text
  respond-GoesAgain (reply t) r h = (refl, (refl, (refl, refl)))
  respond-GoesAgain (callback f) r h = react-GoesAgain r (f r) (h r)
  respond-GoesAgain other_response r h = absurd h

  module _ (keys : Patterns R) (items : List (Item R))
      (compiles_keys : compile_pattern_list re ignorecase keys ≡ compiles items) where
    abbrev pub call : ℤ → Running W M → Outcome × Spawn M
    call now r = expect_loop (searcher_re re items) r.child (some default_timeout) none now r.rounds

    abbrev pub left : ℤ → Running W M → List Round
    left now r = unread (searcher_re re items) r.child (some default_timeout) none now r.rounds

    -- A pass, where the patterns compile.
    pub pass-call :
        (responses : List (Response W M)) (now : ℤ) (r : Running W M)
        → pass re ignorecase terminal linesep keys responses now r
          ≡ take_event re ignorecase terminal linesep responses
              (record r { rounds = left now r })
              (call now r)
    unfolding pass expect expect_list
    pass-call responses now r =
        ap
          (λ c.
            take_compiled re ignorecase terminal linesep responses
              (record r {
                rounds = expect_left re ignorecase terminal linesep c r.child now r.rounds;
              })
              (c >>= λ is.
                compiles (expect_list re is r.child (some default_timeout) none now r.rounds)))
          compiles_keys

    pub call-IsFed :
        (now : ℤ) (r : Running W M) (chunks : List (Option Text × ℤ)) (t : ℤ) (ends : List ℤ)
        → r.child.timeout ≡ none
        → r.rounds ≡ feed chunks (t ∷ ends)
        → IsFed
            (searcher_re re items)
            (resolve default_window r.child.searchwindowsize none)
            r.child
            (r.child.buffer ++ feed_data chunks)
            (t ∷ ends)
            (left now r)
            (call now r)
    call-IsFed now r chunks t ends h f =
        let window = resolve default_window r.child.searchwindowsize none in
        Story-IsFed (searcher_re re items) window r.child r.child.buffer chunks t ends r.rounds
          (left now r) (call now r)
          (subst
            (λ o.
              Story (searcher_re re items) window (deadline now o) r.child r.child.buffer r.rounds
                (left now r) (call now r))
            h
            (expect_loop-Story (searcher_re re items) r.child (some default_timeout) none now
              r.rounds))
          f
