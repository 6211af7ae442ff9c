-- ===== src/Scripts/Temporary.antt =====
-- tests/advanced/multiple_pipes.py and tests/advanced/single_pipe_test_stderr.py: test scripts with temporary files.
pub mod Removed
mod Tests
use cush.Prelude.{ℕ, Bool, Option, [], ◌++◌, if◌then◌else◌}
use cush.Prelude.Text.{Text, codes, text_eq}
use cush.Testutils.{Tested, assertion_fails, expect_raises, other_error, still_waits, tested}
use cush.Testutils.Session.{
  Harness, Session, Test, expect, expect_exact, expect_prompt, pure, sendline, test_success, ◌>>=◌,
  ◌>>◌,
}
use cush.Testutils.Temporary.{
  FileOs, in_world, make_test_program, or_error, removefile, try_finally,
}

-- make_test_program(open(source).read())
unfoldable pub program : {W M : Type 0} → FileOs W → Text → Test W M Text
unfolding make_test_program
program os source = do
  src ← in_world (λ w. or_error (os.read_file source w))
  make_test_program os src (codes "-O2")

module _ {R W M : Type 0} (h : Harness R W M) (os : FileOs W) where
  -- A line, a text that it prints, and the prompt.
  abbrev pub prints : Text → Text → Test W M (Unit {0})
  prints line output = do sendline h line; expect_exact h output; expect_prompt h

  abbrev pub pipes_body : ℕ → Text → Test W M (Unit {0})
  pipes_body fd tmpfile = do
    in_world (λ w. or_error (os.close fd w))
    prints
        (codes "echo hi | cat > "
          ++ tmpfile
          ++ codes "; < "
          ++ tmpfile
          ++ codes " rev | cat | rev | rev")
        (codes "ih\r\n")
    prints (codes "sh -c \"echo $#\" a b | grep -c 1 > " ++ tmpfile ++ codes "; cat < " ++ tmpfile)
        (codes "1\r\n")
    prints
        (codes "sh -c \"echo $#\" a b c | grep -c 2 > " ++ tmpfile ++ codes "; cat < " ++ tmpfile)
        (codes "1\r\n")
    prints
        (codes "sh -c \"echo $#\" a \"b c\" | grep -c 1 > "
          ++ tmpfile
          ++ codes "; cat < "
          ++ tmpfile)
        (codes "1\r\n")
    prints
        (codes "rm "
          ++ tmpfile
          ++ codes "; touch "
          ++ tmpfile
          ++ codes "; echo \"hi\" > "
          ++ tmpfile
          ++ codes "; rev < "
          ++ tmpfile)
        (codes "ih\r\n")

  abbrev pub with_pipes : ℕ × Text → Test W M (Unit {0})
  with_pipes (fd, tmpfile) = do
    try_finally (pipes_body fd tmpfile) (removefile os tmpfile)
    test_success h

  unfoldable pub multiple_pipes : Test W M (Unit {0})
  unfolding expect_prompt
  multiple_pipes = do
    expect_prompt h
    file ← in_world (λ w. or_error (os.mkstemp [] w))
    with_pipes file

  -- assert 'stderr\nstdout\n' == content
  abbrev pub check_content : Text → Test W M (Unit {0})
  check_content content s =
      if text_eq content (codes "stderr\nstdout\n") then (tested tt, s) else (assertion_fails, s)

  abbrev pub stderr_body : Text → Text → Test W M (Unit {0})
  stderr_body exe tmpfile = do
    sendline h (exe ++ codes " |& cat > " ++ tmpfile)
    expect_prompt h
    content ← in_world (λ w. or_error (os.read_file tmpfile w))
    check_content content

  -- The try block, from the assignment of `exe`. Without `exe`, the finally block raises a NameError at once.
  abbrev pub try_program : Text → Tested Text × Session W M → Tested (Unit {0}) × Session W M
  try_program tmpfile (tested exe, s) =
      try_finally (stderr_body exe tmpfile) (removefile os exe >> removefile os tmpfile) s
  try_program tmpfile (still_waits, s) = (still_waits, s)
  try_program tmpfile (_, s) = (other_error, s)

  abbrev pub with_program : Text → Text → Test W M (Unit {0})
  with_program source tmpfile s = try_program tmpfile (program os source s)

  -- `source` is the name of writetostderr.c.
  unfoldable pub single_pipe_test_stderr : Text → Test W M (Unit {0})
  unfolding expect_prompt
  single_pipe_test_stderr source = do
    expect_prompt h
    sendline h (codes "echo hello |& rev")
    expect h (codes "olleh")
    expect_prompt h
    file ← in_world (λ w. or_error (os.mkstemp [] w))
    with_program source (file.1)
    test_success h
