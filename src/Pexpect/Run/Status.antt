-- ===== src/Pexpect/Run/Status.antt =====
-- The exit status that `run` returns.
use cush.Prelude.{◌≡◌, refl, inl, inr, Bool, true, false, Option, List, [], ◌∷◌}
use cush.Prelude.Int.{ℤ}
use cush.Prelude.Text.{Text}
use cush.Pexpect.Pattern.{Pattern, Re}
use cush.Pexpect.Sending.{Terminal}
use cush.Pexpect.Process.{Os, Process, Reply, done, fails}
use cush.Pexpect.Process.Terminal.{close}
use cush.Pexpect.Process.Told.{IsClassified, Post, Released, close-Released}
use cush.Pexpect.Process.Reported.{IsNoted, IsReported}
use cush.Pexpect.Process.Invariant.{close_with, perform_all-IsReported}
use cush.Pexpect.Run.{
  Ran, Response, RunResult, Running, close_fails, escaped, finish_run, output, report_status,
  run_child, run_escapes, run_events, text_only, with_status,
}

module _ {W : Type 0} (os : Os W) where
  -- What the result says of the output, and the object behind it. The exit status is that of the status that
  -- the system gave: None if a signal ended the child.
  abbrev pub Tells : Ran → RunResult × (Process × W) → Type 0
  Tells ran (text_only t, s) = ⊥
  Tells ran (with_status t x, (p, w)) =
      (ran ≡ output t) × ((x ≡ p.exitstatus) × ((p.closed ≡ true) × IsNoted os p))
  Tells ran (run_escapes e, s) = ran ≡ escaped e
  Tells ran (close_fails e, s) = (t : Text) × (ran ≡ output t)

  report_status-Tells :
      (t : Text) (r : Reply Bool × (Process × W))
      → Post Released r
      → IsReported os r.1.0
      → Tells (output t) (report_status t r)
  report_status-Tells t (done b, (p, w)) (c, (d, e)) i = (refl, (refl, (c, noted i)))
    where
      noted : IsReported os p → IsNoted os p
      noted (inl n) = absurd cc
      noted (inr n) = n
  report_status-Tells t (fails e, (p, w)) h i = (t, refl)

  finish_run-Tells :
      (ran : Ran) (p : Process) (w : W)
      → IsClassified os
      → p.closed ≡ false
      → p.terminated ≡ false
      → Tells ran (finish_run os true ran (p, w))
  unfolding finish_run
  finish_run-Tells (output t) p w h c a =
      report_status-Tells t (close os true (p, w)) (close-Released os h true (p, w) c)
        (perform_all-IsReported os (close_with true ∷ []) p w (inl a))
  finish_run-Tells (escaped e) p w h c a = refl

  -- If every status is that of a process that exited, was killed or was stopped, and the loop leaves the
  -- object open and its child not known to have ended: with the exit status asked for, the result is the
  -- output of the loop and the exit status of the closed object, which is that of a status of the system (None if a
  -- signal ended the child); or what left the loop; or `close` fails behind an output. It is never the
  -- output alone.
  pub run_child-Tells :
      {R M : Type 0} (re : Re R M) (ignorecase : Bool) (terminal : Terminal W) (linesep : Text)
      (events : Option (List (Pattern R × Response W M))) (starts : List ℤ) (p : Process)
      (r : Running W M)
      → IsClassified os
      → p.closed ≡ false
      → p.terminated ≡ false
      → Tells
          (run_events re ignorecase terminal linesep events starts r).0
          (run_child re ignorecase terminal linesep os true events starts p r)
  unfolding run_child
  run_child-Tells re ignorecase terminal linesep events starts p r h c a =
      let last = run_events re ignorecase terminal linesep events starts r in
      finish_run-Tells last.0 p last.1.world h c a
