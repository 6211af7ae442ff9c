-- ===== src/Scripts/Tests.antt =====
-- The test scripts at concrete outputs of a shell.
use cush.Prelude.{ℕ, ◌≡◌, ◌≢◌, refl, false, Option, none, some, List, [], ◌∷◌, ◌++◌, arith, length}
use cush.Prelude.Int.{ℤ, pos}
use cush.Prelude.Text.{Text, codes, text_eq}
use cush.Pexpect.Searcher.{find, init, search_string}
use cush.Pexpect.Expect.{Spawn, end_of_file, expect_loop, nothing}
use cush.Pexpect.Expect.Story.{unread}
use cush.Pexpect.Pattern.{compile_pattern_list, search_re}
use cush.Pexpect.Expect.Feed.{feed, feed_data}
use cush.Pexpect.Pattern.Plain.{literal_re, literal_re-IsLiteral}
use cush.Testutils.Tested.{other_error}
use cush.Testutils.{expect_raises, output_spec, tested}
use cush.Testutils.Session.{Harness, Matched, Session, expect_exact, sendline}
use cush.Testutils.Steps.{IsPlainStep, exact, expected, interrupt, line, pattern, perform_all}
use cush.Testutils.Judged.{IsJudged, Raised, perform_all-IsJudged}
use cush.Scripts.{cd_test}
use cush.Scripts.Judged.{in_foreground, run_script, run_script-IsJudged, steps_of}

-- A terminal that keeps what is written, and the shell of the repository.
abbrev harness : Harness Text Text (ℕ × ℕ)
harness = record {
  re = literal_re;
  terminal = record { write = λ s w. (length s, w ++ s); vintr = none; veof = none };
  write_fails = λ t w. false;
  linesep = codes "\n";
  spec = output_spec (codes "student");
}

abbrev console : Spawn (Matched (ℕ × ℕ))
console = record {
  timeout = none;
  searchwindowsize = none;
  buffer = [];
  before = none;
  after = nothing;
  match = nothing;
  match_index = none;
}

abbrev clocks : List ℤ
clocks = pos 0 ∷ pos 1 ∷ pos 2 ∷ pos 3 ∷ pos 4 ∷ pos 5 ∷ pos 6 ∷ pos 7 ∷ []

abbrev session : List (Option Text × ℤ) → Session Text (ℕ × ℕ)
session chunks = record {
  console = console;
  ignorecase = false;
  link = (record { logfile = none; logfile_send = none }, []);
  rounds = feed chunks (pos 8 ∷ pos 9 ∷ []);
  starts = clocks;
}

literal-IsPlainStep : (t : Text) → t ≢ [] → IsPlainStep harness false (pattern t)
literal-IsPlainStep t ne = (ne, t, refl, literal_re-IsLiteral t)

-- A shell that goes into the directory and out of it again.
abbrev cd_output : List (Option Text × ℤ)
cd_output =
    (some (codes "cush>/w/asfnaibapei\r\ncush>/"), pos 1)
    ∷ (some (codes "w\r\ncush>cd: No such file or directory\r\n/w\r\n"), pos 2)
    ∷ (some (codes "/h\r\ncush>exit\r\n"), pos 3)
    ∷ (none, pos 4)
    ∷ []

-- A shell that stays where it is, as long as the command `cd` has an argument.
abbrev stays_output : List (Option Text × ℤ)
stays_output =
    (some (codes "cush>/w\r\ncush>/w\r\ncush>cd: No such file or directory\r\n/w\r\n/h\r\n"), pos 1)
    ∷ (some (codes "cush>exit\r\n"), pos 3)
    ∷ (none, pos 4)
    ∷ []

test_cd_test : (cd_test harness (codes "/w") (codes "/h") (session cd_output)).0 ≡ tested tt
unfolding cd_test compile_pattern_list expect_loop search_re init find output_spec sendline
    expect_exact unread search_string
test_cd_test = refl

test_cd_test_stays :
    (cd_test harness (codes "/w") (codes "/h") (session stays_output)).0 ≡ tested tt
unfolding cd_test compile_pattern_list expect_loop search_re init find output_spec sendline
    expect_exact unread search_string
test_cd_test_stays = refl

test_cd_test_home :
    (cd_test harness (codes "/w") (codes "/g") (session cd_output)).0 ≡ expect_raises end_of_file
unfolding cd_test compile_pattern_list expect_loop search_re init find output_spec sendline
    expect_exact unread search_string
test_cd_test_home = refl

abbrev foreground_output : List (Option Text × ℤ)
foreground_output =
    (
      some (
          codes
            "cush>Hello cush\r\ncush>gcc: fatal error: no input files\r\ncush>gcc: fatal error: no "),
      pos 1,
    )
    ∷ (some (codes "input files\r\ncush>"), pos 2)
    ∷ []

test_run_script-IsJudged :
    IsJudged
      (expected (steps_of harness.spec.prompt in_foreground))
      (feed_data foreground_output)
      none
      (Raised harness ((run_script harness in_foreground (session foreground_output)).1))
      ((run_script harness in_foreground (session foreground_output)).0)
unfolding output_spec
test_run_script-IsJudged =
    run_script-IsJudged harness in_foreground (session foreground_output) foreground_output (pos 8)
      (pos 9 ∷ []) refl refl (omega arith)
      (
        literal-IsPlainStep harness.spec.prompt (λ k. cc),
        (
          tt,
          (
            (λ k. cc),
            (
              tt,
              (
                literal-IsPlainStep (codes "gcc") (λ k. cc),
                (
                  literal-IsPlainStep (codes "fatal error") (λ k. cc),
                  (
                    literal-IsPlainStep (codes "no input files") (λ k. cc),
                    (
                      literal-IsPlainStep harness.spec.prompt (λ k. cc),
                      (
                        tt,
                        (
                          literal-IsPlainStep (codes "gcc: fatal error: no input files") (λ k. cc),
                          (literal-IsPlainStep harness.spec.prompt (λ k. cc), (tt, tt)),
                        ),
                      ),
                    ),
                  ),
                ),
              ),
            ),
          ),
        ),
      )

perform_all-IsJudged_example :
    let r =
      perform_all harness
        (pattern (codes "b") ∷ line (codes "x") ∷ interrupt ∷ exact (codes "a") ∷ [])
        (session ((some (codes "aab"), pos 1) ∷ (some (codes "ca"), pos 2) ∷ [])) in
    IsJudged (codes "b" ∷ codes "a" ∷ []) (codes "aab" ++ codes "ca") none (Raised harness r.1) r.0
perform_all-IsJudged_example =
    perform_all-IsJudged harness
      (pattern (codes "b") ∷ line (codes "x") ∷ interrupt ∷ exact (codes "a") ∷ [])
      (session ((some (codes "aab"), pos 1) ∷ (some (codes "ca"), pos 2) ∷ []))
      ((some (codes "aab"), pos 1) ∷ (some (codes "ca"), pos 2) ∷ []) (pos 8) (pos 9 ∷ []) refl refl
      (omega arith) (literal-IsPlainStep (codes "b") (λ k. cc), (tt, (tt, ((λ k. cc), tt))))

-- A write that raises ends the test.
test_write_raises :
    (perform_all
      (record harness { write_fails = λ t w. text_eq t (codes "\n") })
      (line (codes "x") ∷ [])
      (session [])).0
    ≡ other_error
unfolding sendline
test_write_raises = refl
