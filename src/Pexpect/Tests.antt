-- ===== src/Pexpect/Tests.antt =====
-- pexpect-dpty/pexpect.py at concrete inputs.
use cush.Prelude.{◌≡◌, refl, inl, none, some, List, [], ◌∷◌, ◌++◌, length, ◌≤◌}
use cush.Prelude.Int.{pos, negsuc}
use cush.Prelude.Text.{Text, codes, contains}
use cush.Pexpect.Searcher.{Item, eof, init, item, search_string, timeout}
use cush.Pexpect.Searcher.Window.{search_string-fresh}
use cush.Pexpect.Searcher.Leftmost.{FirstMatch, search_string-FirstMatch}
use cush.Pexpect.Searcher.Within.{search_string-HitWithin}
use cush.Pexpect.Expect.{
  PatternList, Round, Spawn, chunk, empty, expect_exact, expect_loop, end_of_file, handle, many,
  nothing, raised, returned, string_searcher, timed_out,
}
use cush.Pexpect.Expect.Account.{AccountedRun}
use cush.Pexpect.Expect.Returns.{Ends, expect_loop-Ends}
use cush.Pexpect.Expect.Exact.{AllSearchable, Finds, expect_exact-AccountedRun, expect_exact-Finds}
use cush.Pexpect.CommandLine.{split_command_line}
use cush.Pexpect.CommandLine.RoundTrip.{
  Later, Piece, double, escaped, line, plain, split_command_line-line, split_command_line_blank,
}
use cush.Pexpect.CommandLine.RoundTrip
use cush.Pexpect.Drain.{read_more, run, Turn, after_turns, pass, raises, rounds, text}
use cush.Pexpect.Drain.Queue.{all_queued, queue_data, reading, rounds-queue, thread_data}
use cush.Pexpect.Drain.Loss.{expect_loop_loses, late_turn}
use cush.Pexpect.Expect.Account.{received}

abbrev greeting : Text
greeting = codes "hello world"

abbrev patterns : PatternList
patterns = many (item (codes "world") ∷ item (codes "$ ") ∷ eof ∷ [])

abbrev prompts : List (Item Text)
prompts = item (codes "world") ∷ item (codes "$ ") ∷ eof ∷ timeout ∷ []

abbrev shell : Spawn Text
shell = record {
  timeout = some (pos 30000);
  searchwindowsize = none;
  buffer = codes "he";
  before = none;
  after = nothing;
  match = nothing;
  match_index = none;
}

abbrev two_chunks : List Round
two_chunks =
    record { read = chunk (codes "llo wo"); now = pos 10 }
    ∷ record { read = chunk (codes "rld$ "); now = pos 20 }
    ∷ record { read = chunk (codes "unread"); now = pos 30 }
    ∷ []

abbrev silence : List Round
silence = record { read = empty; now = pos 31000 } ∷ []

test_expect_exact :
    (expect_exact patterns shell (some (negsuc 999)) (some (negsuc 0)) (pos 0) two_chunks).0
    ≡ returned 0
unfolding expect_exact search_string init
test_expect_exact = refl

test_expect_exact_timeout :
    (expect_exact patterns shell (some (negsuc 999)) (some (negsuc 0)) (pos 0) silence).0
    ≡ raised timed_out
unfolding expect_exact search_string init
test_expect_exact_timeout = refl

search_string-fresh_example :
    search_string ((0, codes "world") ∷ []) greeting 3 none
    ≡ search_string ((0, codes "world") ∷ []) greeting 11 none
unfolding contains
search_string-fresh_example = search_string-fresh ((0, codes "world") ∷ []) greeting 3 (refl, tt)

search_string-FirstMatch_example :
    FirstMatch
      ((0, codes "world") ∷ (1, codes "o") ∷ [])
      greeting
      (some (record { index = 1; start = 4; end = 5; match = codes "o" }))
unfolding search_string
search_string-FirstMatch_example =
    search_string-FirstMatch ((0, codes "world") ∷ (1, codes "o") ∷ []) greeting

search_string-HitWithin_example : (6 ≤ 11) × (11 ≤ length greeting)
unfolding search_string
search_string-HitWithin_example =
    search_string-HitWithin ((0, codes "world") ∷ []) greeting 3 (some (pos 7))

expect_exact-AccountedRun_example :
    AccountedRun shell
      (codes "he")
      two_chunks
      (expect_exact patterns shell (some (negsuc 999)) (some (negsuc 0)) (pos 0) two_chunks)
expect_exact-AccountedRun_example =
    expect_exact-AccountedRun patterns shell (some (negsuc 999)) (some (negsuc 0)) (pos 0)
      two_chunks

patterns-AllSearchable : AllSearchable (init prompts).searches
unfolding init
patterns-AllSearchable = (λ h. cc, (λ h. cc, tt))

expect_exact-Finds_example :
    Finds
      (init prompts).searches
      (expect_exact (many prompts) shell (some (negsuc 999)) (some (negsuc 0)) (pos 0) two_chunks)
expect_exact-Finds_example =
    expect_exact-Finds (many prompts) shell (some (negsuc 999)) (some (negsuc 0)) (pos 0) two_chunks
      refl patterns-AllSearchable

expect_loop-Ends_example :
    Ends (expect_loop (string_searcher prompts) shell (some (pos 500)) none (pos 0) silence)
expect_loop-Ends_example =
    expect_loop-Ends (string_searcher prompts) shell (pos 500) (some (pos 500)) none (pos 0) silence
      refl (inl refl)

abbrev two_turns : List Turn
two_turns =
    record { ticks = pass (text (codes "llo")) ∷ []; direct = raises timed_out; now = pos 10 }
    ∷ record {
      ticks = pass (text (codes " wo")) ∷ pass (text (codes "rld")) ∷ [];
      direct = raises timed_out;
      now = pos 20;
    }
    ∷ []

rounds-queue_example :
    received (rounds (reading []) two_turns)
      ++ queue_data (after_turns (reading []) two_turns).read_queue
    ≡ thread_data (reading []) two_turns
unfolding run read_more
rounds-queue_example = rounds-queue (reading []) two_turns (refl, (refl, tt))

abbrev last_words : List Text
last_words = codes "bye " ∷ codes "world" ∷ []

expect_loop_loses_example :
    (expect_loop
        (string_searcher prompts)
        shell
        (some (pos 500))
        none
        (pos 0)
        (rounds (reading []) (late_turn last_words (pos 10) ∷ []))
      ≡ handle (string_searcher prompts) shell (codes "he") end_of_file)
    × ((after_turns (reading []) (late_turn last_words (pos 10) ∷ [])).read_queue
        ≡ all_queued last_words)
unfolding search_string init
expect_loop_loses_example =
    expect_loop_loses (string_searcher prompts) shell [] last_words (some (pos 500)) none (pos 0)
      (pos 10) refl refl

abbrev echo : List Piece
echo = plain b'e' ∷ plain b'c' ∷ plain b'h' ∷ plain b'o' ∷ []

echo-IsArgument : RoundTrip.IsArgument echo
echo-IsArgument = ((refl, (refl, (refl, (refl, tt)))), λ h. cc)

abbrev spaced : List Piece
spaced = RoundTrip.single (codes "a b") ∷ escaped 32 ∷ double (codes "it's") ∷ []

abbrev arguments : List Later
arguments = record { blank = 32; blanks = 32 ∷ []; pieces = spaced } ∷ []

split_command_line-line_example :
    split_command_line (codes "echo  'a b'\\ \"it's\"") ≡ codes "echo" ∷ codes "a b it's" ∷ []
split_command_line-line_example = split_command_line-line echo arguments echo-IsArgument (
  (
    refl,
    (refl, tt),
    (((refl, (refl, (refl, tt))), (tt, ((refl, (refl, (refl, (refl, tt)))), tt))), λ h. cc),
  ),
  tt,
)

test_split_command_line_blank : split_command_line (codes " echo") ≡ [] ∷ codes "echo" ∷ []
test_split_command_line_blank = split_command_line_blank 32 [] echo [] refl tt echo-IsArgument tt
