-- ===== src/Pexpect/Run/Step.antt =====
-- What a pass of the loop of `run` does to the output, and where the loop goes then.
use cush.Prelude.{◌<◌, ◌≡◌, ap, Bool, Option, some, List, ◌++◌, length}
use cush.Prelude.Int.{ℤ}
use cush.Prelude.Text.{Text}
use cush.Pexpect.Expect.{}
use cush.Pexpect.Expect.Feed.{feed, feed_data}
use cush.Pexpect.Pattern.{Re}
use cush.Pexpect.Sending.{Terminal}
use cush.Pexpect.Run.{Ran, Running, Stage, again, breaks, glue, joined, joined_output, next_stage}
use cush.Pexpect.Run.Pass.{}

module _ {W M : Type 0} where
  -- A pass that has put some data into the output and goes on.
  pub record IsMore (r : Running W M) (all : Text) (ends : List ℤ) (result : Stage × Running W M)
      : Type 0 where
    pub taken : Text
    pub chunks : List (Option Text × ℤ)
    pub stage : result.0 ≡ again
    pub timeout : result.1.child.timeout ≡ r.child.timeout
    pub rounds : result.1.rounds ≡ feed chunks ends
    pub printed : joined result.1.child_result_list ≡ glue (joined r.child_result_list) (some taken)
    pub divides : taken ++ (result.1.child.buffer ++ feed_data chunks) ≡ all
    pub grows : 0 < length taken

  -- The pass that has put all the data into the output and is the last.
  pub record IsLast (r : Running W M) (all : Text) (result : Stage × Running W M) : Type 0 where
    pub stage : result.0 ≡ breaks
    pub printed : joined result.1.child_result_list ≡ glue (joined r.child_result_list) (some all)

module _ {R W M : Type 0} (re : Re R M) (ignorecase : Bool) (terminal : Terminal W)
    (linesep : Text) where
  pub next_stage_again :
      (s : Stage × Running W M) (rest : Ran × Running W M)
      → s.0 ≡ again
      → next_stage re ignorecase terminal linesep s rest ≡ rest
  next_stage_again (stage, r) rest e =
      ap (λ x. next_stage re ignorecase terminal linesep (x, r) rest) e

  pub next_stage_breaks :
      (s : Stage × Running W M) (rest : Ran × Running W M)
      → s.0 ≡ breaks
      → (next_stage re ignorecase terminal linesep s rest).0
        ≡ joined_output (joined s.1.child_result_list)
  next_stage_breaks (stage, r) rest e =
      ap (λ x. (next_stage re ignorecase terminal linesep (x, r) rest).0) e
