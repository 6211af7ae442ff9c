-- ===== src/Scripts/Temporary/Tests.antt =====
-- The scripts with temporary files, with a shell that prints what they expect, and one that prints nothing.
use cush.Prelude.{
  ℕ, ◌≡◌, refl, Bool, true, false, ◌==◌, ◌+◌, if◌then◌else◌, Option, none, some, List, [], ◌∷◌,
  ◌++◌, arith, length, inl, inr, Bool-cases,
}
use cush.Prelude.Int.{ℤ, pos}
use cush.Prelude.Text.{Text, codes, text_eq}
use cush.Pexpect.Sending
use cush.Pexpect.Searcher.{find, init, search_string}
use cush.Pexpect.Expect.{end_of_file, expect_loop, nothing}
use cush.Pexpect.Expect.Feed.{feed}
use cush.Pexpect.Expect.Story.{unread}
use cush.Pexpect.Pattern.{compile_pattern_list, search_re}
use cush.Pexpect.Pattern.Plain.{literal_re}
use cush.Testutils.{expect_raises, other_error, output_spec, tested}
use cush.Testutils.Session.{Harness, Session, expect_exact, expect_prompt, sendline}
use cush.Testutils.Temporary.{Errno, FileOs, enoent, make_test_program, removefile}
use cush.Scripts.Temporary.{multiple_pipes, program, with_program}
use cush.Scripts.Temporary.Removed.{
  IsCleaned, IsRemoved, Removable, Unlinks, multiple_pipes-IsRemoved, with_program-IsCleaned,
}

-- What was typed, the files that there are, and the number of the next one.
pub record World : Type 0 where
  pub typed : Text
  pub here : Text → Bool
  pub next : ℕ

abbrev exists : World → Text → Bool
exists w n = w.here n

abbrev without : Text → World → World
without name w = record w { here = λ n. if text_eq n name then false else w.here n }

abbrev unlink_if : Bool → Text → World → Option Errno × World
unlink_if true name w = (none, without name w)
unlink_if false name w = (some enoent, w)

-- The file of the source cannot be read, if there is none.
abbrev read_if : Bool → World → Option Text × World
read_if true w = (some (codes "stderr\nstdout\n"), w)
read_if false w = (none, w)

abbrev os : FileOs World
os = record {
  unlink = λ n w. unlink_if (w.here n) n w;
  mkstemp = λ suffix w. (
    some (w.next, w.next ∷ suffix),
    record w {
      here = λ n. if text_eq n (w.next ∷ suffix) then true else w.here n;
      next = w.next + 1;
    },
  );
  close = λ fd w. (some tt, w);
  write = λ fd t w. (some (length t), w);
  system = λ c w. w;
  read_file = λ n w. read_if (w.here n) w;
}

text_eq_refl : (t : Text) → text_eq t t ≡ true
text_eq_refl [] = refl
text_eq_refl (c ∷ t) = let same : (c == c) ≡ true = ground arith in rw same (text_eq_refl t)

os-Removable : (name : Text) → Removable exists os name
os-Removable name w = go (w.here name) refl
  where
    go : (b : Bool) → w.here name ≡ b → Unlinks exists name w (unlink_if b name w)
    go true h = rw (text_eq_refl name) refl
    go false h = h

os-apart :
    (name other : Text) (w : World)
    → w.here other ≡ false
    → exists ((os.unlink name w).1) other ≡ false
os-apart name other w h = go (w.here name)
  where
    go : (b : Bool) → exists ((unlink_if b name w).1) other ≡ false
    go true = elim (Bool-cases (text_eq other name)) [ inl e ↦ rw e refl | inr e ↦ rw e h ]
    go false = h

abbrev harness : Harness Text World (ℕ × ℕ)
harness = record {
  re = literal_re;
  terminal = record {
    write = λ s w. (length s, record w { typed = w.typed ++ s });
    vintr = none;
    veof = none;
  };
  write_fails = λ t w. false;
  linesep = codes "\n";
  spec = output_spec (codes "student");
}

abbrev session : (Text → Bool) → List (Option Text × ℤ) → Session World (ℕ × ℕ)
session here chunks = record {
  console = record {
    timeout = none;
    searchwindowsize = none;
    buffer = [];
    before = none;
    after = nothing;
    match = nothing;
    match_index = none;
  };
  ignorecase = false;
  link = (
    record { logfile = none; logfile_send = none },
    record { typed = []; here = here; next = 5 },
  );
  rounds = feed chunks (pos 8 ∷ pos 9 ∷ []);
  starts = pos 0 ∷ pos 1 ∷ pos 2 ∷ pos 3 ∷ [];
}

-- The shell prints its prompt and ends.
abbrev short : Session World (ℕ × ℕ)
short = session (λ n. false) ((some (codes "cush>"), pos 1) ∷ [])

multiple_pipes-IsRemoved_example : IsRemoved exists (5 ∷ []) (multiple_pipes harness os short)
unfolding expect_prompt compile_pattern_list expect_loop search_re init find output_spec unread
multiple_pipes-IsRemoved_example =
    multiple_pipes-IsRemoved exists harness os short ((expect_prompt harness short).1) 5 (5 ∷ [])
      ((os.mkstemp [] (((expect_prompt harness short).1).link.1)).1) (os-Removable (5 ∷ [])) refl
      refl

test_multiple_pipes : (multiple_pipes harness os short).0 ≡ expect_raises end_of_file
unfolding multiple_pipes compile_pattern_list expect_loop search_re init find output_spec sendline
    expect_exact unread search_string removefile Sending.sendline
test_multiple_pipes = refl

-- There is the source of the program.
abbrev stocked : Session World (ℕ × ℕ)
stocked = session (λ n. text_eq n (codes "writetostderr.c")) ((some (codes "cush>"), pos 1) ∷ [])

test_program :
    ((program os (codes "writetostderr.c") stocked).0 ≡ tested (5 ∷ []))
    × ((program os (codes "writetostderr.c") short).0 ≡ other_error)
unfolding program make_test_program
test_program = (refl, refl)

with_program-IsCleaned_example :
    IsCleaned exists harness os
      (4 ∷ [])
      (program os (codes "writetostderr.c") stocked)
      (with_program harness os (codes "writetostderr.c") (4 ∷ []) stocked)
with_program-IsCleaned_example =
    with_program-IsCleaned exists harness os (codes "writetostderr.c") (4 ∷ []) stocked os-Removable
      os-apart
