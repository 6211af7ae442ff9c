-- ===== src/Testutils/Tests.antt =====
-- The test utilities at concrete inputs.
use cush.Prelude.{◌≡◌, refl, none, some, List, [], ◌∷◌, ◌++◌, length}
use cush.Prelude.Int.{pos}
use cush.Prelude.Text.{Text, codes, text_eq}
use cush.Pexpect.Expect.{Spawn, returned, nothing, value}
use cush.Pexpect.Polling.{Files}
use cush.Pexpect.Sending.{Sender, Terminal, sendline}
use cush.Pexpect.Start.{in_parent}
use cush.Testutils.{
  OutputSpec, format, other_error, output_spec, parse_bg_status, parse_job_line, run_builtin,
  setup_tests, tested,
}
use cush.Testutils.Leaks.{assert_correct_fds}
use cush.Testutils.Shell.{IsConsole, setup_tests-IsConsole}
use cush.Testutils.Builtin.{fg, run_builtin-sendline}

-- Only the shell's own name with `-x` put behind it is executable.
abbrev files : Files
files = record {
  dirname = λ f. codes ".";
  is_executable = λ f. text_eq f (codes "./cush-x");
  join = λ d f. d ++ codes "/" ++ f;
  path = none;
  defpath = codes ":/bin:/usr/bin";
  split_path = λ p. p ∷ [];
}

abbrev spec : OutputSpec
spec = output_spec (codes "student")

setup_tests-IsConsole_example :
    IsConsole files 8
      (in_parent 7 3)
      (codes "./cush-x" ∷ codes "-p" ∷ [])
      (setup_tests files 8 (in_parent 7 3) spec (codes "-x" ∷ codes "-p" ∷ []))
unfolding output_spec
setup_tests-IsConsole_example =
    setup_tests-IsConsole files 8 (in_parent 7 3) spec (codes "-x" ∷ codes "-p" ∷ [])
      ((refl, (refl, (refl, (refl, (refl, (refl, tt)))))), λ e. cc)
      (((refl, (refl, tt)), λ e. cc), (((refl, (refl, tt)), λ e. cc), tt))

abbrev terminal : Terminal Text
terminal = record { write = λ s w. (length s, w ++ s); vintr = none; veof = none }

abbrev logs : Sender
logs = record { logfile = none; logfile_send = none }

test_run_builtin :
    run_builtin terminal (codes "\n") spec (codes "fg") (codes "1" ∷ []) (logs, [])
    ≡ tested (logs, codes "fg 1\n")
unfolding run_builtin output_spec sendline format
test_run_builtin = refl

run_builtin-sendline_example :
    run_builtin terminal (codes "\n") spec (codes "fg") (codes "%1" ∷ []) (logs, [])
    ≡ tested (sendline terminal (codes "\n") (codes "fg %1") (logs, [])).1
run_builtin-sendline_example =
    run_builtin-sendline terminal (codes "\n") (codes "student") (fg (codes "%1")) (logs, [])

abbrev found : Spawn (List Text)
found = record {
  timeout = some (pos 2000);
  searchwindowsize = none;
  buffer = [];
  before = none;
  after = nothing;
  match = value (codes "1" ∷ codes "Stopped" ∷ codes "vi" ∷ []);
  match_index = some 0;
}

test_parse_job_line :
    parse_job_line spec (λ m. m) (returned 0, found)
    ≡ tested (record { id = codes "1"; status = codes "stopped"; command = codes "vi" })
unfolding parse_job_line output_spec
test_parse_job_line = refl

abbrev found_job : Spawn (List Text)
found_job = record found { match = value (codes "1" ∷ codes "42" ∷ []) }

test_parse_bg_status :
    (parse_bg_status (λ m. m) (returned 0, found_job)
      ≡ tested (record { job_id = codes "1"; pid = codes "42" }))
    × (parse_bg_status (λ m. m) (returned 0, found) ≡ other_error)
unfolding parse_bg_status
test_parse_bg_status = (refl, refl)

test_assert_correct_fds :
    (assert_correct_fds (some (codes "2" ∷ codes "0" ∷ codes "1" ∷ [])) ≡ tested tt)
    × (assert_correct_fds (some (codes "2" ∷ codes "0" ∷ codes "1" ∷ codes "10" ∷ []))
        ≡ other_error)
unfolding assert_correct_fds
test_assert_correct_fds = (refl, refl)
