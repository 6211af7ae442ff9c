-- ===== src/Pexpect/Interact/Tests.antt =====
-- `interact` at concrete inputs.
use cush.Prelude.{ℕ, ◌≢◌, ◌≡◌, refl, none, some, List, [], ◌∷◌, arith}
use cush.Prelude.Text.{codes}
use cush.Pexpect.Interact.{
  Console, CopyPass, alive, escape_typed, gives, idle, interact, interact_writen, life_raises,
  rfind, took,
}
use cush.Pexpect.Interact.Relay.{IsRelayed, ending, interact-IsRelayed, used_passes}

-- The mode is whether the terminal is raw.
abbrev console : Console ℕ
console = record { stdout = []; logfile = some []; sent = []; buffer = codes "$ "; mode = 0 }

-- The user types an escape character (`!`) twice in one read.
abbrev two_escapes : List CopyPass
two_escapes =
    record {
      life = alive;
      output = idle;
      displayed = none;
      input = gives (codes "ls");
      attempts = took 1 ∷ took 9 ∷ [];
    }
    ∷ record {
      life = alive;
      output = gives (codes "ls");
      displayed = some 2;
      input = gives (codes "a!b!c");
      attempts = took 2 ∷ took 2 ∷ took 9 ∷ took 9 ∷ took 9 ∷ [];
    }
    ∷ record {
      life = alive;
      output = gives (codes "x");
      displayed = some 1;
      input = idle;
      attempts = [];
    }
    ∷ []

-- The child gets the first of the two escape characters.
test_interact : interact (codes "!") none none (λ m. 1) two_escapes console ≡ (
  escape_typed,
  record {
    stdout = codes "$ ls";
    logfile = some (codes "ls");
    sent = codes "lsa!b";
    buffer = [];
    mode = 0;
  },
)
unfolding interact rfind interact_writen
test_interact = refl

lives : life_raises ≢ alive
lives e = absurd cc

interact-IsRelayed_example :
    IsRelayed
      (codes "!")
      none
      none
      console
      (used_passes (codes "!") none none two_escapes)
      (ending (codes "!") none none two_escapes)
      (interact (codes "!") none none (λ m. 1) two_escapes console)
interact-IsRelayed_example =
    interact-IsRelayed (codes "!") none none (λ m. 1) two_escapes console
      (
        (lives, (tt, ((omega arith, (omega arith, tt)), omega arith))),
        (
          (
            lives,
            (
              (2, (refl, omega arith)),
              (
                (omega arith, (omega arith, (omega arith, (omega arith, (omega arith, tt))))),
                omega arith,
              ),
            ),
          ),
          ((lives, ((1, (refl, omega arith)), tt)), tt),
        ),
      )
