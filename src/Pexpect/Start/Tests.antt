-- ===== src/Pexpect/Start/Tests.antt =====
-- The start of a child at concrete inputs.
use cush.Prelude.{◌≡◌, refl, true, false, none, some, List, [], ◌∷◌, ◌++◌}
use cush.Prelude.Int.{pos}
use cush.Prelude.Text.{Text, codes, text_eq}
use cush.Pexpect.CommandLine.RoundTrip.{Later, Piece, plain, single}
use cush.Pexpect.Polling.{Files}
use cush.Pexpect.Start.{
  Settings, in_child, in_parent, list, named, run_calls, spawn, start_raises, becomes, child_calls,
  index_error,
}
use cush.Pexpect.Start.Commanded.{IsStarted, spawn-IsStarted, spawn-line}

abbrev files : Files
files = record {
  dirname = λ f. [];
  is_executable = λ f. text_eq f (codes "/bin/ls");
  join = λ d f. d ++ codes "/" ++ f;
  path = some (codes "/bin");
  defpath = codes ":/bin:/usr/bin";
  split_path = λ p. p ∷ [];
}

abbrev settings : Settings
settings = record {
  timeout = some (pos 30000);
  logfile = none;
  cwd = some (codes "/tmp");
  env = none;
  drainpty = true;
  is_irix = false;
}

abbrev paths : List Text
paths = codes "/bin/ls" ∷ codes "a b" ∷ []

test_run_calls :
    run_calls (λ c. false) (child_calls 6 settings (codes "/bin/ls") paths)
    ≡ becomes (codes "/bin/ls") paths none
unfolding run_calls child_calls
test_run_calls = refl

-- An empty command line has no first word.
test_spawn : (spawn files 6 settings in_child (named []) (list [])).0 ≡ start_raises index_error
unfolding spawn
test_spawn = refl

spawn-IsStarted_example :
    IsStarted files 6 settings
      (in_parent 7 3)
      (codes "ls" ∷ codes "-l" ∷ [])
      (spawn files 6 settings (in_parent 7 3) (named (codes "ls")) (list (codes "-l" ∷ [])))
spawn-IsStarted_example =
    spawn-IsStarted files 6 settings (in_parent 7 3) (codes "ls") (codes "-l" ∷ [])

abbrev ls : List Piece
ls = plain b'l' ∷ plain b's' ∷ []

abbrev quoted : List Piece
quoted = single (codes "a b") ∷ []

abbrev arguments : List Later
arguments = record { blank = 32; blanks = []; pieces = quoted } ∷ []

spawn-line_example :
    IsStarted files 6 settings in_child
      (codes "ls" ∷ codes "a b" ∷ [])
      (spawn files 6 settings in_child (named (codes "ls 'a b'")) (list []))
spawn-line_example =
    spawn-line files 6 settings in_child ls arguments ((refl, (refl, tt)), λ h. cc)
      ((refl, tt, (((refl, (refl, (refl, tt))), tt), λ h. cc)), tt)
