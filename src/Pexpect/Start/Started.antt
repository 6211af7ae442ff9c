-- ===== src/Pexpect/Start/Started.antt =====
-- What the start of the child leaves, and what the child does.
use cush.Prelude.{
  ℕ, zero, suc, ◌-◌, ◌+◌, ◌≤◌, ◌<◌, ◌≡◌, refl, inl, inr, Bool, true, false, ◌||◌, Option, none,
  some, List, [], ◌∷◌, ◌++◌, arith, ◌==◌, Bool-cases,
}
use cush.Prelude.Text.{Text}
use cush.Pexpect.Start.{
  Call, Fate, Settings, after_call, becomes, change_directory, chdir, child_calls, child_raises,
  close_fd, close_from, execute, goes_on, ignore_sighup, run_calls,
}

-- Whether the calls close this descriptor.
abbrev pub closes : ℕ → List Call → Bool
closes i [] = false
closes i (close_fd j ∷ rest) = i == j || closes i rest
closes i (_ ∷ rest) = closes i rest

-- What becomes of a child: the program at this path with these arguments, or an exception leaves the
-- constructor in the child.
abbrev pub IsFate : Text → List Text → Option (List (Text × Text)) → Fate → Type 0
IsFate path args env (becomes p a e) = (p ≡ path) × ((a ≡ args) × (e ≡ env))
IsFate path args env child_raises = Unit
IsFate path args env goes_on = ⊥

-- The child's calls, whichever of them raise: they end in the command or in an exception, and close every
-- descriptor up to the limit but the three standard ones.
pub record IsChild (max_fd : ℕ) (s : Settings) (path : Text) (args : List Text) (cs : List Call)
    : Type 0 where
  pub fate : (raises : Call → Bool) → IsFate path args s.env (run_calls raises cs)
  pub closed : (i : ℕ) → 3 ≤ i → i < max_fd → closes i cs ≡ true
  pub standard : (i : ℕ) → i < 3 → closes i cs ≡ false

close_from-closes :
    (i j n : ℕ) (rest : List Call) → j ≤ i → i < j + n → closes i (close_from j n ++ rest) ≡ true
close_from-closes i j zero rest h l = absurd (omega (arith, h, l))
close_from-closes i j (suc n) rest h l = elim (Bool-cases (i == j)) [
  | inl e ↦ rw e refl
  | inr e ↦ rw e (close_from-closes i (j + 1) n rest (ground (arith, h, e)) (omega (arith, l)))
]

close_from-standard :
    (i j n : ℕ) (rest : List Call)
    → i < j
    → closes i rest ≡ false
    → closes i (close_from j n ++ rest) ≡ false
close_from-standard i j zero rest l h = h
close_from-standard i j (suc n) rest l h =
    let e : (i == j) ≡ false = ground (arith, l) in
    rw e (close_from-standard i (j + 1) n rest (omega (arith, l)) h)

close_from-IsFate :
    (path : Text) (args : List Text) (env : Option (List (Text × Text))) (raises : Call → Bool)
    (j n : ℕ) (rest : List Call)
    → IsFate path args env (run_calls raises rest)
    → IsFate path args env (run_calls raises (close_from j n ++ rest))
unfolding run_calls
close_from-IsFate path args env raises j zero rest h = h
close_from-IsFate path args env raises j (suc n) rest h =
    close_from-IsFate path args env raises (j + 1) n rest h

execute-IsFate :
    (path : Text) (args : List Text) (env : Option (List (Text × Text))) (raised : Bool)
    → IsFate path args env (after_call (execute env path args) raised goes_on)
execute-IsFate path args none true = tt
execute-IsFate path args none false = (refl, (refl, refl))
execute-IsFate path args (some env) true = tt
execute-IsFate path args (some env) false = (refl, (refl, refl))

chdir-IsFate :
    (path : Text) (args : List Text) (env : Option (List (Text × Text))) (d : Text) (raised : Bool)
    (rest : Fate)
    → IsFate path args env rest
    → IsFate path args env (after_call (chdir d) raised rest)
chdir-IsFate path args env d true rest h = tt
chdir-IsFate path args env d false rest h = h

change_directory-IsFate :
    (path : Text) (args : List Text) (env : Option (List (Text × Text))) (raises : Call → Bool)
    (cwd : Option Text)
    → IsFate path args env (run_calls raises (change_directory cwd ++ execute env path args ∷ []))
unfolding run_calls
change_directory-IsFate path args env raises none = execute-IsFate path args env _
change_directory-IsFate path args env raises (some d) =
    chdir-IsFate path args env d (raises (chdir d)) _ (execute-IsFate path args env _)

ignore_sighup-IsFate :
    (path : Text) (args : List Text) (env : Option (List (Text × Text))) (raised : Bool)
    (rest : Fate)
    → IsFate path args env rest
    → IsFate path args env (after_call ignore_sighup raised rest)
ignore_sighup-IsFate path args env true rest h = tt
ignore_sighup-IsFate path args env false rest h = h

last_calls-closes :
    (i : ℕ) (cwd : Option Text) (env : Option (List (Text × Text))) (path : Text) (args : List Text)
    → closes i (change_directory cwd ++ execute env path args ∷ []) ≡ false
last_calls-closes i none none path args = refl
last_calls-closes i none (some env) path args = refl
last_calls-closes i (some d) none path args = refl
last_calls-closes i (some d) (some env) path args = refl

pub child_calls-IsChild :
    (max_fd : ℕ) (s : Settings) (path : Text) (args : List Text)
    → IsChild max_fd s path args (child_calls max_fd s path args)
unfolding child_calls run_calls
child_calls-IsChild max_fd s path args = record {
  fate = λ raises. close_from-IsFate path args s.env raises 3 (max_fd - 3) _ (
      ignore_sighup-IsFate path args s.env (raises ignore_sighup) _
        (change_directory-IsFate path args s.env raises s.cwd));
  closed = λ i h l. close_from-closes i 3 (max_fd - 3) _ h (omega (arith, h, l));
  standard =
      λ i l. close_from-standard i 3 (max_fd - 3) _ l (last_calls-closes i s.cwd s.env path args);
}
