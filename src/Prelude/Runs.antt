-- ===== src/Prelude/Runs.antt =====
-- Runs of characters of one class, as the patterns of `re` take them.
use cush.Prelude.{ℕ, ◌≡◌, ◌≢◌, Bool, true, false, [], ◌∷◌, ◌++◌, All}
use cush.Prelude.Text.{Text, span}

-- Some characters, all of the class.
abbrev pub IsRun : (ℕ → Bool) → Text → Type 0
IsRun p t = All (λ c. p c ≡ true) t × (t ≢ [])

pub span-run :
    (p : ℕ → Bool) (run : Text) (c : ℕ) (rest : Text)
    → All (λ d. p d ≡ true) run
    → p c ≡ false
    → span p (run ++ (c ∷ rest)) ≡ (run, c ∷ rest)
unfolding span
span-run p [] c rest h k = rw k
span-run p (d ∷ run) c rest (e, h) k = rw (e, span-run p run c rest h k)
