-- ===== src/Scripts.antt =====
-- src/cd_test.py, src/gback_glob_test.py, tests/advanced/multi_pipe_test.py and tests/basic/foreground.py: the
-- test scripts that only send lines and expect texts, behind `setup_tests`. `os.getcwd()`, the home directory and
-- the temporary directory are parameters.
pub mod Judged
pub mod Temporary
mod Tests
use cush.Prelude.{ℕ, Bool, true, false, List, [], ◌∷◌, ◌++◌, ◌&&◌, ◌==◌, if◌then◌else◌, length, map}
use cush.Prelude.Text.{Text, codes, starts_with}
use cush.Testutils.{join_blank}
use cush.Testutils.Session.{
  Harness, Test, expect, expect_exact, expect_prompt, sendeof, sendline, test_success, ◌>>=◌, ◌>>◌,
}

-- testfiles
abbrev pub glob_files : List Text
glob_files = codes "aa" ∷ codes "ab" ∷ codes "abc" ∷ codes "c" ∷ []

abbrev pub is_a : Text → Bool
is_a f = starts_with (codes "a") f

abbrev pub is_a_and_one : Text → Bool
is_a_and_one f = starts_with (codes "a") f && length f == 2

-- [f for f in files if test(f)]
unfoldable pub choose : (Text → Bool) → List Text → List Text
choose test [] = []
choose test (f ∷ files) = if test f then f ∷ choose test files else choose test files

-- " ".join(tmpdir + "/" + f for f in files)
abbrev pub glob_output : Text → List Text → Text
glob_output tmpdir files = join_blank (map (λ f. tmpdir ++ codes "/" ++ f) files)

module _ {R W M : Type 0} (h : Harness R W M) where
  unfoldable pub cd_test : Text → Text → Test W M (Unit {0})
  unfolding expect_prompt
  cd_test cwd home = do
    expect_prompt h
    sendline h (codes "mkdir asfnaibapei")
    sendline h (codes "cd asfnaibapei")
    sendline h (codes "pwd")
    expect_exact h cwd
    sendline h (codes "cd ../")
    sendline h (codes "pwd")
    expect_exact h cwd
    sendline h (codes "rmdir asfnaibapei")
    sendline h (codes "cd asfnaibapei")
    sendline h (codes "pwd")
    expect h (codes "No such file or directory")
    sendline h (codes "cd")
    sendline h (codes "pwd")
    expect_exact h home
    sendline h (codes "exit")
    expect_exact h (codes "exit\r\n")
    test_success h

  unfoldable pub gback_glob_test : Text → Test W M (Unit {0})
  unfolding expect_prompt choose
  gback_glob_test tmpdir = do
    expect_prompt h
    sendline h (codes "echo " ++ tmpdir ++ codes "/*")
    expect_exact h (glob_output tmpdir glob_files)
    expect_prompt h
    sendline h (codes "echo " ++ tmpdir ++ codes "/a*")
    expect_exact h (glob_output tmpdir (choose is_a glob_files))
    expect_prompt h
    sendline h (codes "echo " ++ tmpdir ++ codes "/a?")
    expect_exact h (glob_output tmpdir (choose is_a_and_one glob_files))
    test_success h

  unfoldable pub multi_pipe_test : Test W M (Unit {0})
  unfolding expect_prompt
  multi_pipe_test = do
    sendline h (codes "echo hi | cat | cat | cat | cat | cat | cat | cat")
    expect_exact h (codes "hi\r\n")
    expect_prompt h
    sendline h (codes "echo hi | cat | cat | cat | cat | cat | cat | cat | tr h b | cat")
    expect_exact h (codes "bi\r\n")
    expect_prompt h
    sendline h (codes "echo hello how are you | sed s/how/who/ | sed s/are/am/ | sed s/you/I/")
    expect_exact h (codes "hello who am I\r\n")
    expect_prompt h
    sendline h (codes "echo string | rev | rev ")
    expect_exact h (codes "string\r\n")
    expect_prompt h
    test_success h

  unfoldable pub foreground : Test W M (Unit {0})
  unfolding expect_prompt
  foreground = do
    expect_prompt h
    sendline h (codes "echo Hello cush")
    expect_exact h (codes "Hello cush\r\n")
    sendline h (codes "/usr/bin/gcc")
    expect h (codes "gcc")
    expect h (codes "fatal error")
    expect h (codes "no input files")
    expect_prompt h
    sendline h (codes "gcc -fno-diagnostics-color")
    expect h (codes "gcc: fatal error: no input files")
    expect_prompt h
    sendeof h
    test_success h
