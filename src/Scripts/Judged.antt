-- ===== src/Scripts/Judged.antt =====
-- src/cd_test.py, src/gback_glob_test.py, tests/advanced/multi_pipe_test.py and tests/basic/foreground.py: what the
-- end of a script says of the data that its reads bring.
use cush.Prelude.{◌≤◌, ◌≡◌, refl, Option, none, List, [], ◌∷◌, ◌++◌, length, All}
use cush.Prelude.Int.{ℤ}
use cush.Prelude.Text.{Text, codes}
use cush.Pexpect.Expect.Feed.{feed, feed_data}
use cush.Testutils.Session.{Harness, Session, Test, expect_prompt}
use cush.Testutils.Steps.{IsPlainStep, Step, end_input, exact, expected, line, pattern, perform_all}
use cush.Testutils.Judged.{IsJudged, Raised, perform_all-IsJudged}
use cush.Scripts.{
  cd_test, foreground, gback_glob_test, glob_files, glob_output, multi_pipe_test, choose,
}

abbrev cd_steps : Text → Text → Text → List Step
cd_steps prompt cwd home =
    pattern prompt
    ∷ line (codes "mkdir asfnaibapei")
    ∷ line (codes "cd asfnaibapei")
    ∷ line (codes "pwd")
    ∷ exact cwd
    ∷ line (codes "cd ../")
    ∷ line (codes "pwd")
    ∷ exact cwd
    ∷ line (codes "rmdir asfnaibapei")
    ∷ line (codes "cd asfnaibapei")
    ∷ line (codes "pwd")
    ∷ pattern (codes "No such file or directory")
    ∷ line (codes "cd")
    ∷ line (codes "pwd")
    ∷ exact home
    ∷ line (codes "exit")
    ∷ exact (codes "exit\r\n")
    ∷ []

abbrev glob_steps : Text → Text → List Step
glob_steps prompt tmpdir =
    pattern prompt
    ∷ line (codes "echo " ++ tmpdir ++ codes "/*")
    ∷ exact (glob_output tmpdir glob_files)
    ∷ pattern prompt
    ∷ line (codes "echo " ++ tmpdir ++ codes "/a*")
    ∷ exact (glob_output tmpdir (codes "aa" ∷ codes "ab" ∷ codes "abc" ∷ []))
    ∷ pattern prompt
    ∷ line (codes "echo " ++ tmpdir ++ codes "/a?")
    ∷ exact (glob_output tmpdir (codes "aa" ∷ codes "ab" ∷ []))
    ∷ []

abbrev pipe_steps : Text → List Step
pipe_steps prompt =
    line (codes "echo hi | cat | cat | cat | cat | cat | cat | cat")
    ∷ exact (codes "hi\r\n")
    ∷ pattern prompt
    ∷ line (codes "echo hi | cat | cat | cat | cat | cat | cat | cat | tr h b | cat")
    ∷ exact (codes "bi\r\n")
    ∷ pattern prompt
    ∷ line (codes "echo hello how are you | sed s/how/who/ | sed s/are/am/ | sed s/you/I/")
    ∷ exact (codes "hello who am I\r\n")
    ∷ pattern prompt
    ∷ line (codes "echo string | rev | rev ")
    ∷ exact (codes "string\r\n")
    ∷ pattern prompt
    ∷ []

abbrev foreground_steps : Text → List Step
foreground_steps prompt =
    pattern prompt
    ∷ line (codes "echo Hello cush")
    ∷ exact (codes "Hello cush\r\n")
    ∷ line (codes "/usr/bin/gcc")
    ∷ pattern (codes "gcc")
    ∷ pattern (codes "fatal error")
    ∷ pattern (codes "no input files")
    ∷ pattern prompt
    ∷ line (codes "gcc -fno-diagnostics-color")
    ∷ pattern (codes "gcc: fatal error: no input files")
    ∷ pattern prompt
    ∷ end_input
    ∷ []

-- The scripts, with what they take from the system.
pub data Script : Type 0 where
  changes_directory : Text → Text → Script
  globs : Text → Script
  pipes in_foreground : Script

abbrev pub steps_of : Text → Script → List Step
steps_of prompt (changes_directory cwd home) = cd_steps prompt cwd home
steps_of prompt (globs tmpdir) = glob_steps prompt tmpdir
steps_of prompt pipes = pipe_steps prompt
steps_of prompt in_foreground = foreground_steps prompt

module _ {R W M : Type 0} (h : Harness R W M) where
  abbrev prompt : Text
  prompt = h.spec.prompt

  cd_test-steps : (cwd home : Text) → cd_test h cwd home ≡ perform_all h (cd_steps prompt cwd home)
  unfolding cd_test expect_prompt
  cd_test-steps cwd home = refl

  gback_glob_test-steps :
      (tmpdir : Text) → gback_glob_test h tmpdir ≡ perform_all h (glob_steps prompt tmpdir)
  unfolding gback_glob_test expect_prompt choose
  gback_glob_test-steps tmpdir = refl

  multi_pipe_test-steps : multi_pipe_test h ≡ perform_all h (pipe_steps prompt)
  unfolding multi_pipe_test expect_prompt
  multi_pipe_test-steps = refl

  foreground-steps : foreground h ≡ perform_all h (foreground_steps prompt)
  unfolding foreground expect_prompt
  foreground-steps = refl

  abbrev pub run_script : Script → Test W M (Unit {0})
  run_script (changes_directory cwd home) = cd_test h cwd home
  run_script (globs tmpdir) = gback_glob_test h tmpdir
  run_script pipes = multi_pipe_test h
  run_script in_foreground = foreground h

  -- A script does its steps one after the other.
  run_script-perform_all :
      (script : Script) → run_script script ≡ perform_all h (steps_of prompt script)
  run_script-perform_all (changes_directory cwd home) = cd_test-steps cwd home
  run_script-perform_all (globs tmpdir) = gback_glob_test-steps tmpdir
  run_script-perform_all pipes = multi_pipe_test-steps
  run_script-perform_all in_foreground = foreground-steps

  -- For a session without a search window whose reads bring some data and then the end of the file, a script whose
  -- expected texts are not empty and whose patterns have no special characters, and enough clocks: when the script
  -- succeeds, the texts that it expects stand in the buffer and that data one after the other, and when it meets
  -- the end of the file, they do not stand so; a timeout needs a timeout of the console, another error is an
  -- OSError of a write, and it does not end in another way.
  pub run_script-IsJudged :
      (script : Script) (s : Session W M) (chunks : List (Option Text × ℤ)) (c : ℤ) (ends : List ℤ)
      → s.console.searchwindowsize ≡ none
      → s.rounds ≡ feed chunks (c ∷ ends)
      → length (expected (steps_of prompt script)) ≤ length s.starts
      → All (IsPlainStep h s.ignorecase) (steps_of prompt script)
      → IsJudged
          (expected (steps_of prompt script))
          (s.console.buffer ++ feed_data chunks)
          s.console.timeout
          (Raised h ((run_script script s).1))
          ((run_script script s).0)
  run_script-IsJudged script s chunks c ends window still enough plain =
      rw (run_script-perform_all script)
        (perform_all-IsJudged h (steps_of prompt script) s chunks c ends window still enough plain)

  -- The texts that `cd_test.py` expects.
  abbrev pub cd_texts : Text → Text → List Text
  cd_texts cwd home =
      prompt ∷ cwd ∷ cwd ∷ codes "No such file or directory" ∷ home ∷ codes "exit\r\n" ∷ []
