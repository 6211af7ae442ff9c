-- ===== src/Pexpect/Polling/Heard.antt =====
-- When `waitnoecho` and `__select` answer, and what `which` finds.
use cush.Prelude.{
  ◌≡◌, refl, ap, Bool, true, false, not, ◌&&◌, ◌||◌, Option, none, some, List, [], ◌∷◌,
  if◌then◌else◌,
}
use cush.Prelude.Int.{ℤ}
use cush.Prelude.Text.{Text, text_eq}
use cush.Pexpect.Expect.{deadline, default_timeout, expired, remaining, resolve}
use cush.Pexpect.Polling.{Files, Look, echo_loop, search_path, waitnoecho, which, which_in}

-- The looks that a loop with this deadline takes: one more behind the last that leaves time.
unfoldable pub taken : Option ℤ → Option ℤ → List Look → List Look
taken end_time timeout [] = []
taken end_time timeout (l ∷ looks) =
    let rest = taken end_time (remaining end_time l.clock) looks in
    l ∷ (if expired timeout then [] else rest)

unfoldable pub is_silent : List Look → Bool
is_silent [] = false
is_silent (l ∷ looks) = not l.echo || is_silent looks

-- The answer that the looks give, where the loop has one.
abbrev pub Answers : Bool → Option Bool → Type 0
Answers silent none = silent ≡ false
Answers silent (some b) = b ≡ silent

echo_loop-Answers :
    (end_time timeout : Option ℤ) (looks : List Look)
    → Answers (is_silent (taken end_time timeout looks)) (echo_loop end_time timeout looks)
unfolding echo_loop taken is_silent
echo_loop-Answers end_time timeout [] = refl
echo_loop-Answers end_time timeout (l ∷ looks) =
    step l.echo (expired timeout) (taken end_time (remaining end_time l.clock) looks)
      (echo_loop end_time (remaining end_time l.clock) looks)
      (echo_loop-Answers end_time (remaining end_time l.clock) looks)
  where
    step :
        (echo late : Bool) (rest : List Look) (r : Option Bool)
        → Answers (is_silent rest) r
        → Answers
            (not echo || is_silent (if late then [] else rest))
            (if not echo then some true else if late then some false else r)
    step false late rest r h = refl
    step true true rest r h = refl
    step true false rest r h = h

-- `waitnoecho` answers True exactly if one of the looks that it takes up to its deadline finds the echo
-- off, and False if none does; while it has no answer the echo was on at all of them.
pub waitnoecho-Answers :
    (default timeout : Option ℤ) (start : ℤ) (looks : List Look)
    → Answers
        (is_silent (
          taken
            (deadline start (resolve default_timeout default timeout))
            (resolve default_timeout default timeout)
            looks))
        (waitnoecho default timeout start looks)
unfolding waitnoecho
waitnoecho-Answers default timeout start looks =
    let t = resolve default_timeout default timeout in echo_loop-Answers (deadline start t) t looks

-- The paths that `which` tries, in their order.
abbrev pub on_path : Files → Text → List Text → List Text
on_path files filename [] = []
on_path files filename (path ∷ pathlist) =
    files.join path filename ∷ on_path files filename pathlist

abbrev pub tried : Files → Text → List Text
tried files filename =
    let rest = on_path files filename (files.split_path (search_path files files.path)) in
    if text_eq (files.dirname filename) [] then rest else filename ∷ rest

abbrev pub first_executable : Files → List Text → Option Text
first_executable files [] = none
first_executable files (f ∷ fs) =
    if files.is_executable f then some f else first_executable files fs

which_in-first :
    (files : Files) (filename : Text) (pathlist : List Text)
    → which_in files filename pathlist ≡ first_executable files (on_path files filename pathlist)
unfolding which_in
which_in-first files filename [] = refl
which_in-first files filename (path ∷ pathlist) =
    ap
      (λ r.
        if files.is_executable (files.join path filename)
        then some (files.join path filename)
        else r)
      (which_in-first files filename pathlist)

-- `which` gives the first executable of the file name itself, if it has a directory part, and the file
-- in each directory of the search path; the default path is searched where PATH is missing or empty.
pub which-first_executable :
    (files : Files) (filename : Text)
    → which files filename ≡ first_executable files (tried files filename)
unfolding which
which-first_executable files filename =
    let pathlist = files.split_path (search_path files files.path) in
    step (text_eq (files.dirname filename) []) (which_in files filename pathlist)
      (on_path files filename pathlist) (which_in-first files filename pathlist)
  where
    step :
        (bare : Bool) (found : Option Text) (rest : List Text)
        → found ≡ first_executable files rest
        → (if not bare && files.is_executable filename then some filename else found)
          ≡ first_executable files (if bare then rest else filename ∷ rest)
    step true found rest h = h
    step false found rest h = ap (λ r. if files.is_executable filename then some filename else r) h
