-- ===== src/Testutils/Shell.antt =====
-- The shell that `setup_tests` starts.
use mathlib.Core.Path.{subst}
use cush.Prelude.{
  ℕ, ◌≡◌, ◌≢◌, refl, sym, ap, ◌∙◌, true, some, List, [], ◌∷◌, ◌++◌, All, map, append_assoc,
  append-nil,
}
use cush.Prelude.Int.{pos}
use cush.Prelude.Text.{Text}
use cush.Pexpect.CommandLine.RoundTrip.{
  IsArgument, IsLater, IsWritten, Later, Piece, is_plain, line, plain, typed, word, words,
}
use cush.Pexpect.Polling.{Files}
use cush.Pexpect.Process.{Process}
use cush.Pexpect.Start.{Fork, Object, Start, calls, list, named, ready, spawn, start_raises}
use cush.Pexpect.Start.Commanded.{BecomesCommand, HasChild, IsStarted, NoChild, spawn-line}
use cush.Testutils.{
  OutputSpec, console_settings, join_blank, set_timeout, setup_tests, shell_command,
}

-- A text of characters without a meaning, not empty.
abbrev pub IsPlain : Text → Type 0
IsPlain t = All (λ c. is_plain c ≡ true) t × (t ≢ [])

abbrev pieces_of : Text → List Piece
pieces_of t = map plain t

abbrev later_of : Text → Later
later_of t = record { blank = 32; blanks = []; pieces = pieces_of t }

typed-plain : (t : Text) → typed (pieces_of t) ≡ t
typed-plain [] = refl
typed-plain (c ∷ t) = ap (◌∷◌ c) (typed-plain t)

word-plain : (t : Text) → word (pieces_of t) ≡ t
word-plain [] = refl
word-plain (c ∷ t) = ap (◌∷◌ c) (word-plain t)

plain-IsWritten : (t : Text) → All (λ c. is_plain c ≡ true) t → All IsWritten (pieces_of t)
plain-IsWritten [] h = tt
plain-IsWritten (c ∷ t) (h, rest) = (h, plain-IsWritten t rest)

IsPlain-IsArgument : (t : Text) → IsPlain t → IsArgument (pieces_of t)
IsPlain-IsArgument t (h, n) = (plain-IsWritten t h, λ e. n (sym (word-plain t) ∙ e))

IsPlain-IsLater : (args : List Text) → All IsPlain args → All IsLater (map later_of args)
IsPlain-IsLater [] h = tt
IsPlain-IsLater (a ∷ args) (h, rest) =
    ((refl, tt, IsPlain-IsArgument a h), IsPlain-IsLater args rest)

words-plain : (args : List Text) → words (map later_of args) ≡ args
words-plain [] = refl
words-plain (a ∷ args) =
    ap (λ w. w ∷ words (map later_of args)) (word-plain a) ∙ ap (◌∷◌ a) (words-plain args)

line-plain :
    (a : Text) (args : List Text) → line (pieces_of a) (map later_of args) ≡ join_blank (a ∷ args)
line-plain a [] = typed-plain a
line-plain a (b ∷ args) =
    ap (λ t. t ++ (32 ∷ line (pieces_of b) (map later_of args))) (typed-plain a)
    ∙ ap (λ t. a ++ (32 ∷ t)) (line-plain b args)

-- The words that the arguments make with the shell: the first is put behind its name.
abbrev pub shell_words : Text → List Text → List Text
shell_words shell [] = shell ∷ []
shell_words shell (a ∷ args) = (shell ++ a) ∷ args

join_blank-append :
    (s a : Text) (args : List Text) → s ++ join_blank (a ∷ args) ≡ join_blank ((s ++ a) ∷ args)
join_blank-append s a [] = refl
join_blank-append s a (b ∷ args) = sym (append_assoc s a (32 ∷ join_blank (b ∷ args)))

All-append :
    (s a : Text)
    → All (λ c. is_plain c ≡ true) s
    → All (λ c. is_plain c ≡ true) a
    → All (λ c. is_plain c ≡ true) (s ++ a)
All-append [] a h k = k
All-append (c ∷ s) a (h, rest) k = (h, All-append s a rest k)

IsPlain-append : (s a : Text) → IsPlain s → IsPlain a → IsPlain (s ++ a)
IsPlain-append s a (h, n) (k, m) = (All-append s a h k, not_empty s n)
  where
    not_empty : (t : Text) → t ≢ [] → t ++ a ≢ []
    not_empty [] n e = n refl
    not_empty (c ∷ t) n e = cc

module _ (files : Files) (max_fd : ℕ) (fork : Fork) where
  -- A start whose object has the timeout of the tests.
  abbrev pub IsConsole : List Text → Start × Object → Type 0
  IsConsole ws (ready, o) =
      HasChild files max_fd (record console_settings { timeout = some (pos 2000) }) fork ws o
  IsConsole ws (start_raises e, o) = NoChild files max_fd console_settings fork ws o
  IsConsole ws (calls cs, o) = BecomesCommand files max_fd console_settings fork ws cs

  set_timeout-IsConsole :
      (ws : List Text) (r : Start × Object)
      → IsStarted files max_fd console_settings fork ws r
      → IsConsole ws (set_timeout r)
  set_timeout-IsConsole ws (ready, o) h = record {
    pid = h.pid;
    fd = h.fd;
    name = h.name;
    rest = h.rest;
    path = h.path;
    forked = h.forked;
    splits = h.splits;
    found = h.found;
    command = h.command;
    args = h.args;
    child = h.child;
    process = ap {A = Process} (λ p. record p { read_timeout = some (pos 2000) }) h.process;
  }
  set_timeout-IsConsole ws (start_raises e, o) h = h
  set_timeout-IsConsole ws (calls cs, o) h = h

  join-IsConsole :
      (spec : OutputSpec) (args : List Text) (w : Text) (ws : List Text)
      → shell_command spec args ≡ join_blank (w ∷ ws)
      → All IsPlain (w ∷ ws)
      → IsConsole (w ∷ ws) (setup_tests files max_fd fork spec args)
  unfolding setup_tests
  join-IsConsole spec args w ws e (h, hs) =
      subst
        (λ c.
          IsConsole (w ∷ ws)
            (set_timeout (spawn files max_fd console_settings fork (named c) (list []))))
        (line-plain w ws ∙ sym e)
        (subst
          (λ v. IsConsole v (
            set_timeout (
              spawn files max_fd console_settings fork
                (named (line (pieces_of w) (map later_of ws))) (list []))))
          (ap (λ x. x ∷ words (map later_of ws)) (word-plain w) ∙ ap (◌∷◌ w) (words-plain ws))
          (set_timeout-IsConsole _ _ (
            spawn-line files max_fd console_settings fork (pieces_of w) (map later_of ws)
              (IsPlain-IsArgument w h) (IsPlain-IsLater ws hs))))

  -- If the name of the shell and the arguments have no blanks, quotes or backslashes and are not empty:
  -- `setup_tests` starts the executable of the shell's name if there are no arguments, and with arguments
  -- that of the name with the first argument put behind it, without a blank, and the others as its arguments; the
  -- started object has the timeout of two seconds.
  pub setup_tests-IsConsole :
      (spec : OutputSpec) (args : List Text)
      → IsPlain spec.shell
      → All IsPlain args
      → IsConsole (shell_words spec.shell args) (setup_tests files max_fd fork spec args)
  setup_tests-IsConsole spec [] h hs =
      join-IsConsole spec [] spec.shell [] (append-nil spec.shell) (h, tt)
  setup_tests-IsConsole spec (a ∷ args) h (k, ks) =
      join-IsConsole spec (a ∷ args) (spec.shell ++ a) args (join_blank-append spec.shell a args)
        (IsPlain-append spec.shell a h k, ks)
