-- ===== src/Pexpect/Polling/Tests.antt =====
-- `waitnoecho`, `__select` and `which` at concrete inputs.
use cush.Prelude.{◌≡◌, refl, true, false, some, List, [], ◌∷◌, ◌++◌}
use cush.Prelude.Int.{negsuc, pos}
use cush.Prelude.Text.{codes, text_eq}
use cush.Pexpect.Expect.{deadline}
use cush.Pexpect.Polling.{Files, Look, answer, interrupted, readable, select_fd, waitnoecho, which}
use cush.Pexpect.Polling.Heard.{
  Answers, first_executable, is_silent, taken, waitnoecho-Answers, which-first_executable,
}

abbrev looks : List Look
looks = record { echo = true; clock = pos 10 } ∷ record { echo = false; clock = pos 110 } ∷ []

test_waitnoecho : waitnoecho (some (pos 100)) (some (negsuc 999)) (pos 0) looks ≡ some true
unfolding waitnoecho
test_waitnoecho = refl

test_select_fd :
    select_fd
      (some (pos 50))
      (pos 0)
      (interrupted (pos 20) ∷ interrupted (pos 60) ∷ answer true ∷ [])
    ≡ readable false
unfolding select_fd
test_select_fd = refl

test_waitnoecho-Answers :
    Answers
      (is_silent (taken (deadline (pos 0) (some (pos 100))) (some (pos 100)) looks))
      (waitnoecho (some (pos 100)) (some (negsuc 999)) (pos 0) looks)
test_waitnoecho-Answers = waitnoecho-Answers (some (pos 100)) (some (negsuc 999)) (pos 0) looks

abbrev files : Files
files = record {
  dirname = λ f. [];
  is_executable = λ f. text_eq f (codes "/bin/ls");
  join = λ d f. d ++ codes "/" ++ f;
  path = some (codes "/usr/bin:/bin");
  defpath = codes ":/bin:/usr/bin";
  split_path = λ p. codes "/usr/bin" ∷ codes "/bin" ∷ [];
}

test_which : which files (codes "ls") ≡ some (codes "/bin/ls")
unfolding which
test_which = refl

test_which-first_executable :
    which files (codes "ls") ≡ first_executable files (codes "/usr/bin/ls" ∷ codes "/bin/ls" ∷ [])
test_which-first_executable = which-first_executable files (codes "ls")
