-- ===== src/Testutils/Judged.antt =====
-- tests/testutils.py: what a test that sends lines and expects texts says of the data that its reads bring. Of what
-- the shell writes, the reader thread of pexpect may lose some (Pexpect/Drain).
use mathlib.Core.Path.{subst}
use cush.Prelude.{
  ℕ, suc, ◌≤◌, ◌≡◌, ◌≢◌, refl, sym, ap, ◌∙◌, inl, inr, Bool, true, false, Option, none, some, List,
  [], ◌∷◌, ◌++◌, arith, All, length, drop, Bool-cases, ◌↔◌,
}
use cush.Prelude.Int.{ℤ}
use cush.Prelude.Text.{Text, starts_with}
use cush.Pexpect.Expect.{
  Outcome, Round, Search, Spawn, deadline, default_timeout, default_window, end_of_file,
  expect_loop, other_error, resolve, string_searcher, timed_out,
}
use cush.Pexpect.Expect.Feed.{feed, feed_data}
use cush.Pexpect.Expect.Story.{unread}
use cush.Pexpect.Expect.Sought.{Absent, Seeks, Sought, expect_loop-Sought}
use cush.Pexpect.Searcher.{item}
use cush.Pexpect.Pattern.{compile_pattern_list, compile_patterns, searcher_re}
use cush.Pexpect.Sending
use cush.Pexpect.Sending.{char_or, control_code}
use cush.Testutils.{Tested, assertion_fails, expect_raises, still_waits, tested}
use cush.Testutils.Tested.{other_error}
use cush.Testutils.Order.{InOrder, InOrder-first, drop-length, starts_with-append}
use cush.Testutils.Session.{
  Harness, Matched, Session, Test, call, call_at, expect, expect_exact, follow, is_first,
  map_search, re_match, send_key, send_text, sendcontrol, sendeof, sendintr, sendline, text_match,
  ◌>>◌,
}
use cush.Testutils.Steps.{
  IsPlainStep, Step, control, end_input, exact, expected, interrupt, line, pattern, perform_all,
  searcher_re-Seeks, string_searcher-Seeks,
}

-- What the end of a test says: success, that the texts stand in the data in this order; the end of the file, that
-- they do not; a timeout, that there is one; another error, that a write raised.
abbrev pub IsJudged : List Text → Text → Option ℤ → Type 0 → Tested (Unit {0}) → Type 0
IsJudged ts all limit raised (tested a) = InOrder ts all
IsJudged ts all limit raised (expect_raises end_of_file) = ¬ InOrder ts all
IsJudged ts all limit raised (expect_raises timed_out) = limit ≢ none
IsJudged ts all limit raised other_error = raised
IsJudged ts all limit raised _ = ⊥

-- Without a timeout and a raising write, a test succeeds exactly if its texts stand so.
pub IsJudged-succeeds :
    (ts : List Text) (all : Text) (limit : Option ℤ) (raised : Type 0) (x : Tested (Unit {0}))
    → limit ≡ none
    → ¬ raised
    → IsJudged ts all limit raised x
    → (x ≡ tested tt) ↔ InOrder ts all
IsJudged-succeeds ts all limit raised (tested tt) n f h = (λ e. h, λ i. refl)
IsJudged-succeeds ts all limit raised (expect_raises end_of_file) n f h =
    (λ e. absurd cc, λ i. absurd (h i))
IsJudged-succeeds ts all limit raised (expect_raises timed_out) n f h = absurd (h n)
IsJudged-succeeds ts all limit raised (expect_raises other_error) n f h = absurd h
IsJudged-succeeds ts all limit raised assertion_fails n f h = absurd h
IsJudged-succeeds ts all limit raised other_error n f h = absurd (f h)
IsJudged-succeeds ts all limit raised still_waits n f h = absurd h

IsJudged-impl :
    (ts us : List Text) (d all : Text) (limit : Option ℤ) (raised : Type 0) (x : Tested (Unit {0}))
    → (InOrder ts d → InOrder us all)
    → (InOrder us all → InOrder ts d)
    → IsJudged ts d limit raised x
    → IsJudged us all limit raised x
IsJudged-impl ts us d all limit raised (tested a) f g h = f h
IsJudged-impl ts us d all limit raised (expect_raises end_of_file) f g h = λ k. h (g k)
IsJudged-impl ts us d all limit raised (expect_raises timed_out) f g h = h
IsJudged-impl ts us d all limit raised (expect_raises other_error) f g h = absurd h
IsJudged-impl ts us d all limit raised assertion_fails f g h = absurd h
IsJudged-impl ts us d all limit raised other_error f g h = h
IsJudged-impl ts us d all limit raised still_waits f g h = absurd h

Absent-InOrder : (t : Text) (ts : List Text) (all : Text) → Absent t all → ¬ InOrder (t ∷ ts) all
Absent-InOrder t ts all h (g, r, e, k) =
    let there : starts_with t (drop (length g) all) ≡ true =
      ap (λ d. starts_with t (drop (length g) d)) (sym e)
      ∙ ap (starts_with t) (drop-length g (t ++ r))
      ∙ starts_with-append t r in
    let none_there : starts_with t (drop (length g) all) ≡ false = h (length g) in absurd cc

-- What the steps before one leave: the settings, the clocks for the rest, and some data and the end of the file.
pub record Continues {W M : Type 0} (s : Session W M) (size : ℕ) (ends : List ℤ) (d : Text)
    (limit : Option ℤ) (ignorecase : Bool) : Type 0 where
  pub chunks : List (Option Text × ℤ)
  pub still : s.rounds ≡ feed chunks ends
  pub data_left : s.console.buffer ++ feed_data chunks ≡ d
  pub same_limit : s.console.timeout ≡ limit
  pub no_window : s.console.searchwindowsize ≡ none
  pub same_case : s.ignorecase ≡ ignorecase
  pub enough : size ≤ length s.starts

follow_assoc :
    {W M A B C : Type 0} (r : Tested A × Session W M) (f : A → Test W M B) (g : B → Test W M C)
    → follow (follow r f) g ≡ follow r (λ a s. follow (f a s) g)
follow_assoc (tested a, s) f g = refl
follow_assoc (expect_raises e, s) f g = refl
follow_assoc (assertion_fails, s) f g = refl
follow_assoc (other_error, s) f g = refl
follow_assoc (still_waits, s) f g = refl

module _ {R W M : Type 0} (h : Harness R W M) where
  -- A write raises on the terminal that the test leaves.
  abbrev pub Raised : Session W M → Type 0
  Raised s = (t : Text) × (h.write_fails t s.link.1 ≡ true)

  -- A part of a test for some texts, from any session of the kind.
  abbrev pub Judges : List Text → ℕ → List ℤ → Option ℤ → Bool → Test W M (Unit {0}) → Type 0
  Judges ts size ends limit ignorecase k =
      (s : Session W M) (d : Text)
      → Continues s size ends d limit ignorecase
      → IsJudged ts d limit (Raised ((k s).1)) ((k s).0)

  module _ (t : Text) (ts : List Text) (size : ℕ) (c : ℤ) (ends : List ℤ) (limit : Option ℤ)
      (ignorecase : Bool) (k : Test W M (Unit {0}))
      (judges : Judges ts size (c ∷ ends) limit ignorecase k) where
    -- What a call leaves is judged as the outcome and the rest of the test say.
    left-IsJudged :
        (s : Session W M) (now : ℤ) (starts : List ℤ) (all : Text) (o : Outcome)
        (self : Spawn (Matched M)) (left : List Round)
        → s.console.timeout ≡ limit
        → s.console.searchwindowsize ≡ none
        → s.ignorecase ≡ ignorecase
        → size ≤ length starts
        → Sought t s.console (deadline now s.console.timeout) all (c ∷ ends) left (o, self)
        → let r : Tested (Unit {0}) × Session W M =
            follow
              (is_first (o, self), record s { console = self; rounds = left; starts = starts })
              (λ a. k) in
          IsJudged (t ∷ ts) all limit (Raised r.1) r.0
    left-IsJudged s now starts all o self left same window ic l (inl m) =
        let next : Session W M = record s { console = self; rounds = left; starts = starts } in
        let rest : Text = self.buffer ++ feed_data m.chunks in
        rw m.returns (
          IsJudged-impl ts (t ∷ ts) rest all limit (Raised ((k next).1)) ((k next).0)
            (λ i. (m.before, rest, m.divides, i))
            (InOrder-first t ts m.before self.buffer (feed_data m.chunks) all m.first m.divides)
            (judges next rest (record {
              chunks = m.chunks;
              still = m.left;
              data_left = refl;
              same_limit = m.timeout ∙ same;
              no_window = m.window ∙ window;
              same_case = ic;
              enough = l;
            })))
    left-IsJudged s now starts all o self left same window ic l (inr (inl (e, a))) =
        rw e (Absent-InOrder t ts all a)
    left-IsJudged s now starts all o self left same window ic l (inr (inr (e, a))) =
        rw e (λ n. a (ap (deadline now) (same ∙ n)))

    call-Judges :
        (searcher : Search (Matched M)) (window : Option ℤ)
        → Seeks searcher t
        → resolve default_window none window ≡ none
        → Judges
            (t ∷ ts)
            (suc size)
            (c ∷ ends)
            limit
            ignorecase
            (call searcher window is_first >> k)
    call-Judges searcher window seeks w s d q = at s.starts q.enough
      where
        at :
            (l : List ℤ)
            → suc size ≤ length l
            → let r : Tested (Unit {0}) × Session W M =
                follow (call_at searcher window is_first l s) (λ a. k) in
              IsJudged (t ∷ ts) d limit (Raised r.1) r.0
        at [] e = absurd (omega (arith, e))
        at (now ∷ starts) e =
            let r : Outcome × Spawn (Matched M) =
              expect_loop searcher s.console (some default_timeout) window now s.rounds in
            left-IsJudged s now starts d (r.0) (r.1)
              (unread searcher s.console (some default_timeout) window now s.rounds) q.same_limit
              q.no_window q.same_case (omega (arith, e))
              (subst
                (λ all.
                  Sought t s.console (deadline now s.console.timeout) all (c ∷ ends)
                    (unread searcher s.console (some default_timeout) window now s.rounds) r)
                q.data_left
                (subst
                  (λ rounds.
                    Sought t s.console (deadline now s.console.timeout)
                      (s.console.buffer ++ feed_data q.chunks) (c ∷ ends)
                      (unread searcher s.console (some default_timeout) window now rounds)
                      (expect_loop searcher s.console (some default_timeout) window now rounds))
                  (sym q.still)
                  (expect_loop-Sought searcher t seeks s.console window now q.chunks c ends
                    (rw q.no_window w))))

  module _ (ts : List Text) (size : ℕ) (ends : List ℤ) (limit : Option ℤ) (ignorecase : Bool) where
    -- What is sent does not change what the reads bring; where the write raises, the test ends.
    send_text-Judges :
        (text : Text) (k : Test W M (Unit {0}))
        → Judges ts size ends limit ignorecase k
        → Judges ts size ends limit ignorecase (send_text h text >> k)
    send_text-Judges text k judges s d q = elim (Bool-cases (h.write_fails text s.link.1)) [
      | inl e ↦ rw e (text, e)
      | inr e ↦ rw e (
          judges (record s { link = (Sending.send h.terminal h.linesep text s.link).1 }) d
            (record {
              chunks = q.chunks;
              still = q.still;
              data_left = q.data_left;
              same_limit = q.same_limit;
              no_window = q.no_window;
              same_case = q.same_case;
              enough = q.enough;
            }))
    ]

    sendline-Judges :
        (l : Text) (k : Test W M (Unit {0}))
        → Judges ts size ends limit ignorecase k
        → Judges ts size ends limit ignorecase (sendline h l >> k)
    unfolding sendline
    sendline-Judges l k judges s d q =
        subst (λ r. IsJudged ts d limit (Raised r.1) r.0)
          (sym (follow_assoc (send_text h l s) (λ a. send_text h h.linesep) (λ a. k)))
          (send_text-Judges l (send_text h h.linesep >> k) (send_text-Judges h.linesep k judges) s d
            q)

    send_key-Judges :
        (a : Option ℕ) (k : Test W M (Unit {0}))
        → Judges ts size ends limit ignorecase k
        → Judges ts size ends limit ignorecase (send_key h a >> k)
    send_key-Judges none k judges = judges
    send_key-Judges (some a) k judges = send_text-Judges (a ∷ []) k judges

  perform_all-Judges :
      (steps : List Step) (c : ℤ) (ends : List ℤ) (limit : Option ℤ) (ignorecase : Bool)
      → All (IsPlainStep h ignorecase) steps
      → Judges
          (expected steps)
          (length (expected steps))
          (c ∷ ends)
          limit
          ignorecase
          (perform_all h steps)
  unfolding sendcontrol sendintr sendeof expect_exact expect compile_pattern_list compile_patterns
  perform_all-Judges [] c ends limit ignorecase plain = λ s d q. tt
  perform_all-Judges (line l ∷ steps) c ends limit ignorecase (p, plain) =
      sendline-Judges (expected steps) _ _ limit ignorecase l (perform_all h steps)
        (perform_all-Judges steps c ends limit ignorecase plain)
  perform_all-Judges (control ch ∷ steps) c ends limit ignorecase (p, plain) =
      send_key-Judges (expected steps) _ _ limit ignorecase (control_code ch) (perform_all h steps)
        (perform_all-Judges steps c ends limit ignorecase plain)
  perform_all-Judges (interrupt ∷ steps) c ends limit ignorecase (p, plain) = λ s.
      send_text-Judges (expected steps) _ _ limit ignorecase
        (char_or h.terminal h.linesep 3 h.terminal.vintr s.link.1 ∷ []) (perform_all h steps)
        (perform_all-Judges steps c ends limit ignorecase plain) s
  perform_all-Judges (end_input ∷ steps) c ends limit ignorecase (p, plain) = λ s.
      send_text-Judges (expected steps) _ _ limit ignorecase
        (char_or h.terminal h.linesep 4 h.terminal.veof s.link.1 ∷ []) (perform_all h steps)
        (perform_all-Judges steps c ends limit ignorecase plain) s
  perform_all-Judges (exact t ∷ steps) c ends limit ignorecase (p, plain) =
      call-Judges t (expected steps) (length (expected steps)) c ends limit ignorecase
        (perform_all h steps) (perform_all-Judges steps c ends limit ignorecase plain)
        (map_search text_match (string_searcher (item t ∷ []))) (some default_window)
        (string_searcher-Seeks t p) refl
  perform_all-Judges (pattern t ∷ steps) c ends limit ignorecase ((p, r, e, literal), plain) =
      λ s d q.
        let e' : h.re.compile s.ignorecase t ≡ some r =
          ap (λ b. h.re.compile b t) q.same_case ∙ e in
        rw e' (
          call-Judges t (expected steps) (length (expected steps)) c ends limit ignorecase
            (perform_all h steps) (perform_all-Judges steps c ends limit ignorecase plain)
            (map_search re_match (searcher_re h.re (item r ∷ []))) none
            (searcher_re-Seeks h.re r t p literal) refl s d q)

  -- For a session without a search window whose reads bring some data and then the end of the file, and a test
  -- whose texts are not empty, whose patterns have no special characters and for which there are enough clocks:
  -- when the test succeeds, its texts stand in the buffer and that data one after the other, and when it meets the
  -- end of the file, they do not stand so; a timeout needs a timeout of the console, another error is an OSError
  -- of a write on the terminal as the test leaves it, and it does not end in another way.
  pub perform_all-IsJudged :
      (steps : List Step) (s : Session W M) (chunks : List (Option Text × ℤ)) (c : ℤ)
      (ends : List ℤ)
      → s.console.searchwindowsize ≡ none
      → s.rounds ≡ feed chunks (c ∷ ends)
      → length (expected steps) ≤ length s.starts
      → All (IsPlainStep h s.ignorecase) steps
      → IsJudged
          (expected steps)
          (s.console.buffer ++ feed_data chunks)
          s.console.timeout
          (Raised ((perform_all h steps s).1))
          ((perform_all h steps s).0)
  perform_all-IsJudged steps s chunks c ends window still enough plain =
      perform_all-Judges steps c ends s.console.timeout s.ignorecase plain s _ (record {
        chunks = chunks;
        still = still;
        data_left = refl;
        same_limit = refl;
        no_window = window;
        same_case = refl;
        enough = enough;
      })
