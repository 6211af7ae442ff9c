-- ===== src/Testutils/Session.antt =====
-- tests/testutils.py: the routines of a test as actions on its console, which the test scripts chain.
use cush.Prelude.{ℕ, Bool, true, false, Option, none, some, List, [], ◌∷◌}
use cush.Prelude.Int.{ℤ}
use cush.Prelude.Text.{Text}
use cush.Pexpect.Searcher.{Hit, Item, item}
use cush.Pexpect.Expect.{
  Outcome, Round, Search, Spawn, default_timeout, default_window, expect_loop, string_searcher,
}
use cush.Pexpect.Expect.Story.{unread}
use cush.Pexpect.Pattern.{
  Compiled, Re, compile_pattern_list, compiles, one, regex_error, searcher_re, source, type_error,
}
use cush.Pexpect.Sending
use cush.Pexpect.Sending.{Sender, Terminal, char_or, control_code}
use cush.Testutils.{
  OutputSpec, Tested, assert_first, assertion_fails, expect_raises, other_error, still_waits,
  tested, then_tested,
}

-- The attribute `match` of the console: a text behind `expect_exact`, an object of `re` behind `expect`.
pub data Matched (M : Type 0) : Type 0 where
  text_match : Text → Matched M
  re_match : M → Matched M

abbrev pub map_hit : {M N : Type 0} → (M → N) → Option (Hit M) → Option (Hit N)
map_hit f none = none
map_hit f (some h) =
    some (record { index = h.index; start = h.start; end = h.end; match = f h.match })

abbrev pub map_search : {M N : Type 0} → (M → N) → Search M → Search N
map_search f searcher = record {
  search = λ b freshlen window. map_hit f (searcher.search b freshlen window);
  eof_index = searcher.eof_index;
  timeout_index = searcher.timeout_index;
}

-- The console with its `ignorecase`, the terminal's other side, what the shell is to print and the clock at the
-- start of each expectation.
pub record Session (W M : Type 0) : Type 0 where
  pub console : Spawn (Matched M)
  pub ignorecase : Bool
  pub link : Sender × W
  pub rounds : List Round
  pub starts : List ℤ

-- A part of a test: what it gives, and what it leaves.
abbrev pub Test : Type 0 → Type 0 → Type 0 → Type 0
Test W M A = Session W M → Tested A × Session W M

abbrev pub is_first : {M : Type 0} → Outcome × Spawn M → Tested (Unit {0})
is_first r = then_tested (assert_first r) (λ console. tested tt)

module _ {W M : Type 0} where
  abbrev pub pure : {A : Type 0} → A → Test W M A
  pure a s = (tested a, s)

  abbrev pub follow :
      {A B : Type 0} → Tested A × Session W M → (A → Test W M B) → Tested B × Session W M
  follow (tested a, s) f = f a s
  follow (expect_raises e, s) f = (expect_raises e, s)
  follow (assertion_fails, s) f = (assertion_fails, s)
  follow (other_error, s) f = (other_error, s)
  follow (still_waits, s) f = (still_waits, s)

  infixl 5 ◌>>=◌ ◌>>◌
  abbrev pub ◌>>=◌ : {A B : Type 0} → Test W M A → (A → Test W M B) → Test W M B
  (m >>= f) s = follow (m s) f

  abbrev pub ◌>>◌ : {A B : Type 0} → Test W M A → Test W M B → Test W M B
  (m >> k) s = follow (m s) (λ a. k)

  -- A call on the console with this searcher and search window, what it makes of the outcome, and the rounds
  -- that it leaves. Where the clocks run out, the test still waits.
  abbrev pub call_at :
      {A : Type 0}
      → Search (Matched M)
      → Option ℤ
      → (Outcome × Spawn (Matched M) → Tested A)
      → List ℤ
      → Test W M A
  call_at searcher window judge [] s = (still_waits, s)
  call_at searcher window judge (now ∷ starts) s =
      let r = expect_loop searcher s.console (some default_timeout) window now s.rounds in
      (
        judge r,
        record s {
          console = r.1;
          rounds = unread searcher s.console (some default_timeout) window now s.rounds;
          starts = starts;
        },
      )

  abbrev pub call :
      {A : Type 0}
      → Search (Matched M)
      → Option ℤ
      → (Outcome × Spawn (Matched M) → Tested A)
      → Test W M A
  call searcher window judge s = call_at searcher window judge s.starts s

-- The module `re`, the terminal, whether `os.write` raises an OSError on a text, and the settings of the shell.
pub record Harness (R W M : Type 0) : Type 0 where
  pub re : Re R M
  pub terminal : Terminal W
  pub write_fails : Text → W → Bool
  pub linesep : Text
  pub spec : OutputSpec

module _ {R W M : Type 0} (h : Harness R W M) where
  -- console.send: it writes the logs, and then to the terminal, which may raise.
  abbrev pub try_send : Bool → Text → Test W M (Unit {0})
  try_send true text s = (
    other_error,
    record s { link = ((Sending.send h.terminal h.linesep text s.link).1.0, s.link.1) },
  )
  try_send false text s =
      (tested tt, record s { link = (Sending.send h.terminal h.linesep text s.link).1 })

  abbrev pub send_text : Text → Test W M (Unit {0})
  send_text text s = try_send (h.write_fails text s.link.1) text s

  unfoldable pub sendline : Text → Test W M (Unit {0})
  sendline line = send_text line >> send_text h.linesep

  abbrev pub send_key : Option ℕ → Test W M (Unit {0})
  send_key none = pure tt
  send_key (some a) = send_text (a ∷ [])

  unfoldable pub sendcontrol : ℕ → Test W M (Unit {0})
  sendcontrol ch = send_key (control_code ch)

  unfoldable pub sendintr : Test W M (Unit {0})
  sendintr s = send_text (char_or h.terminal h.linesep 3 h.terminal.vintr s.link.1 ∷ []) s

  -- console.sendeof()
  unfoldable pub sendeof : Test W M (Unit {0})
  sendeof s = send_text (char_or h.terminal h.linesep 4 h.terminal.veof s.link.1 ∷ []) s

  unfoldable pub expect_exact : Text → Test W M (Unit {0})
  expect_exact line =
      call (map_search text_match (string_searcher (item line ∷ []))) (some default_window) is_first

  -- console.expect, where the pattern compiles.
  abbrev pub call_compiled :
      {A : Type 0}
      → Compiled (List (Item R))
      → (Outcome × Spawn (Matched M) → Tested A)
      → Test W M A
  call_compiled (compiles items) judge s =
      call (map_search re_match (searcher_re h.re items)) none judge s
  call_compiled type_error judge s = (other_error, s)
  call_compiled regex_error judge s = (other_error, s)

  abbrev pub call_expect :
      {A : Type 0} → Text → (Outcome × Spawn (Matched M) → Tested A) → Test W M A
  call_expect line judge s =
      call_compiled (compile_pattern_list h.re s.ignorecase (one (source line))) judge s

  unfoldable pub expect : Text → Test W M (Unit {0})
  expect line = call_expect line is_first

  unfoldable pub expect_prompt : Test W M (Unit {0})
  unfolding expect
  expect_prompt = expect h.spec.prompt

  abbrev pub test_success : Test W M (Unit {0})
  test_success = pure tt
