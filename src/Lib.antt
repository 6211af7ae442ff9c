-- ===== src/Lib.antt =====
-- A verification library for the Python part of CUSH: the test harness that runs and grades a job
-- control shell (the shell itself is C code and is not modelled).
--
-- The parts and how they interact. `tests/stdriver.py` reads list files of tests, runs each test as a
-- child process and prints a grade sheet. A test drives a shell through `pexpect-dpty/pexpect.py`,
-- a version of pexpect in which a thread drains the terminal into a queue: `spawn.expect_exact` makes
-- a searcher and calls `expect_loop`, which searches the data that it takes round by round from the
-- queue (or from the terminal). The tests also look at the shell's children through
-- `pexpect-dpty/proc_check.py`, which reads /proc. What the tests share is in `tests/testutils.py`, and what they
-- expect of the shell's output in `src/output_spec.py`.
--
-- The files.
--   Prelude: the native numbers, Boolean tests, lists, the integers and texts that all parts share. A
--   text is a list of character codes. Prelude/Runs is about runs of characters.
--   Pexpect/Searcher: `searcher_string` (`__init__`, `search`); its search is `search_string`. Find is
--   about `str.find`, Window about `freshlen`, Leftmost about the match that is found, Within about the
--   offsets of a hit.
--   Pexpect/Expect: `expect_loop` and `expect_exact`. The attributes of `spawn` are the record `Spawn`,
--   the data and the clock of each round are a list of `Round`s. Account is about the data that was
--   read, Returns about how the loop ends, Listed about `EOF` and `TIMEOUT` in a list, Exact about what
--   `expect_exact` finds.
--   Story tells a call round by round, with the rounds that it leaves to the next call, Feed
--   the calls whose reads bring some data and then the end of the file, and Sought such a call for one text.
--   Pexpect/Pattern: `compile_pattern_list`, `searcher_re`, `expect_list` and `expect`; the module `re` is
--   a record `Re`. Earliest and Found are about the match and about the data that is read,
--   Live about a call that waits without a timeout, Literal about a pattern without special characters. Plain
--   is a module `re` for the tests.
--   Pexpect/Drain: `Drainpty_Thread`, its queue and the read of a round; a schedule (`Turn`, `Tick`)
--   interleaves the thread with the caller. Queue is about the order of the data, Loss about the end of
--   the thread.
--   Pexpect/Process: the life of the child process: `isalive`, `kill`, `terminate`, `wait`, and in Terminal
--   `close` and `read_nonblocking`. The operations of the system are a record `Os` over a type of worlds;
--   an operation that raises keeps what it has changed. Told is about the answers, Reported, Waits and
--   Invariant are about the status that the object holds.
--   Pexpect/Sending: `send`, `sendline`, `writelines`, `sendcontrol`, `sendeof` and `sendintr`; Control is
--   about what they send.
--   Pexpect/Polling: `waitnoecho`, `__select` and `which`; Heard is about their answers.
--   Pexpect/Reading: `read`, `readline` and `next` over `expect`, and `getecho` and `setecho`. Lines
--   holds `readlines`, whose calls share the rounds; Split cuts a text at its line ends, Feed
--   is about a search for a line end in what a child writes, and Readlines compares the two.
--   Pexpect/Run: `run` behind the start of the child: `event_loop` is its loop, over the local variables as a
--   record `Running`, `finish_run` its end. Pass and Step are about one pass, Output about the output, Waits
--   and Doubled about TIMEOUT among the events, Status about the exit status.
--   Pexpect/Interact: `interact`: `interact_copy` is `__interact_copy`, over a list of passes that say what the
--   two terminals give and take. Last is about `rfind`, Written about the writes, Relay about what is
--   passed on.
--   Pexpect/Start: `__init__` and `_spawn`, which use `split_command_line` and `which`; what the child calls is a
--   list of `Call`s. Started is about the child's calls, Commanded about the command that is started.
--   Pexpect/Pty: `__fork_pty` and `__pty_make_controlling_tty`, over a record of functions of `os`. Descriptors has
--   what these functions do (`PtyLaws`) to the descriptors and the controlling terminal, Forked is about both sides of
--   the fork.
--   Pexpect/Window: `getwinsize` and `setwinsize`, over `fcntl.ioctl`, with what they use of `struct`; Size compares
--   the two.
--   Pexpect/CommandLine: `split_command_line`.
--   Driver/Options, Driver/Listing, Driver/Grades, Driver/Script: `tests/stdriver.py`, from the options
--   that `getopt` returns through the list files and the runs to the printed lines and the scores.
--   Options/Ready is about the checks on the command line, Listing/RoundTrip and Listing/Filter are about
--   the sets that are read, Grades/Points is about the points.
--   Testutils: `tests/testutils.py` and `src/output_spec.py`: `setup_tests`, the expectations, `parse_job_line`,
--   `parse_bg_status` and `run_builtin`. Shell is about the shell that is started, Builtin about the lines that are sent. Session has
--   `sendline`, `sendcontrol`, `sendintr`, `expect`, `expect_exact` and `expect_prompt` as actions of a test (`Test`)
--   on a `Session`, whose writes may raise an OSError: the console, what the shell is to print, and the clock at the start of each expectation. Steps
--   and Judged are about tests made of these, Order about texts that stand one after the other.
--   Scripts: `src/cd_test.py`, `src/gback_glob_test.py`, `tests/advanced/multi_pipe_test.py` and
--   `tests/basic/foreground.py`, behind `setup_tests`, as do blocks of these actions; Judged is about their success.
--   Testutils/Temporary: `removefile` and `make_test_program`, over a record of functions of `os` and `tempfile`.
--   Testutils/Leaks: `assert_correct_fds`, on the names of the descriptors.
--   Scripts/Temporary: `tests/advanced/multiple_pipes.py` and `tests/advanced/single_pipe_test_stderr.py`; Removed is
--   about their temporary files.
--   ProcCheck/Stat: the patterns for a stat line, `check_pid_fgpgrp` and `check_pid_status`.
--   ProcCheck/Children: `count_active_children` and `count_children_timeout`; Table is about a /proc that shows a
--   table of processes.
--   ProcCheck/Foreground: `wait_until_child_is_in_foreground` and `check_foreground_process`.
--   ProcCheck/Counted and ProcCheck/Awaited: what these checks mean when they pass.
--   The modules named Tests run the definitions on concrete inputs.
--
-- Bounds and fuel. No definition takes fuel. Loops that wait for the outside world (`expect_loop`,
-- `interact`, the timed loops of `proc_check`) recurse on the list of what the outside yields, one entry for
-- each pass, and a list that runs out stands for a loop that still waits; `readlines` and the loop of `run`
-- recurse on the clocks at which their calls begin, and a session of a test has a clock for each expectation; the
-- theorems about them say how many are enough. Python integers do not overflow; times are whole milliseconds, where the source has seconds as floats.
--
-- Not modelled. The messages of exceptions and the text that is printed around the values of a line; the
-- modules of pexpect that nothing here uses (`FSM.py`, `ANSI.py`, `screen.py`, `pxssh.py`, `fdpexpect.py`);
-- the rest of `spawn` (`__str__` and `__del__`); the branch of `_spawn` without `pty.fork`; an OSError of `os.write`
-- outside the sends of a test, a select.error out of `read_nonblocking`, an OSError of `os.tcgetpgrp`; the other
-- test scripts under `tests/` and `src/`, which look at processes or use patterns with groups. Processes, files, `getopt` and the clock are parameters.
pub mod Prelude
pub mod Pexpect
pub mod Driver
pub mod ProcCheck
pub mod Testutils
pub mod Scripts
