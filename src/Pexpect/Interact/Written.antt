-- ===== src/Pexpect/Interact/Written.antt =====
-- What has been written to the terminals and to the log.
use cush.Prelude.{
  ◌≤◌, ◌<◌, ◌≡◌, refl, ap, ◌∙◌, Bool, true, false, Option, none, some, List, [], ◌∷◌, ◌++◌, arith,
  All, length, take, drop, append_assoc, append-nil, length-drop, take-append-drop,
}
use cush.Prelude.Text.{Text}
use cush.Pexpect.Sending.{write_log}
use cush.Pexpect.Sending.Control.{write_log-append}
use cush.Pexpect.Interact.{
  Attempt, Console, Course, dead, ends, escape_typed, finished, interact_writen, more_sent,
  next_pass, took, write_raises,
}

-- A write that takes some of the text.
abbrev pub IsTaken : Attempt → Type 0
IsTaken (took n) = 0 < n
IsTaken dead = ⊥
IsTaken write_raises = ⊥

-- If each write takes some of the text, all of it is written.
pub interact_writen-finished :
    (s : Text) (attempts : List Attempt)
    → All IsTaken attempts
    → length s ≤ length attempts
    → interact_writen s attempts ≡ (s, finished)
unfolding interact_writen
interact_writen-finished [] attempts h l = refl
interact_writen-finished (c ∷ s) [] h l = absurd (omega arith)
interact_writen-finished (c ∷ s) (dead ∷ attempts) (h, rest) l = absurd h
interact_writen-finished (c ∷ s) (write_raises ∷ attempts) (h, rest) l = absurd h
interact_writen-finished (c ∷ s) (took n ∷ attempts) (h, rest) l =
    ap (more_sent (take n (c ∷ s))) (
      interact_writen-finished (drop n (c ∷ s)) attempts rest
        (omega (arith, length-drop n (c ∷ s), h, l)))
    ∙ ap (λ t. (t, finished)) (take-append-drop n (c ∷ s))

pub write_log-nil : (l : Option Text) → write_log [] l ≡ l
write_log-nil none = refl
write_log-nil (some l) = ap some (append-nil l)

abbrev pub stage_of : Bool → Course
stage_of true = ends escape_typed
stage_of false = next_pass

module _ {Mode : Type 0} where
  -- The console behind more output of the child and more input of the user.
  abbrev pub relayed : Console Mode → Text → Text → Console Mode
  relayed c a b = record c {
    stdout = c.stdout ++ a;
    logfile = write_log a c.logfile;
    sent = c.sent ++ b;
  }

  pub relayed-append :
      (c : Console Mode) (a b a' b' : Text)
      → relayed (relayed c a b) a' b' ≡ relayed c (a ++ a') (b ++ b')
  relayed-append c a b a' b' =
      rw (append_assoc c.stdout a a')
        (rw (append_assoc c.sent b b') (rw (write_log-append a a' c.logfile) refl))

  pub relayed-nil : (c : Console Mode) → relayed c [] [] ≡ c
  relayed-nil c =
      rw (append-nil c.stdout) (rw (append-nil c.sent) (rw (write_log-nil c.logfile) refl))
