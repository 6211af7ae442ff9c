-- ===== src/Pexpect/Start/Commanded.antt =====
-- The command that the constructor starts.
use mathlib.Core.Path.{subst}
use cush.Prelude.{ℕ, ◌≡◌, ◌⊎◌, refl, sym, inl, inr, false, Option, none, some, List, [], ◌∷◌, All}
use cush.Prelude.Int.{pos}
use cush.Prelude.Text.{Text}
use cush.Pexpect.CommandLine.RoundTrip.{
  IsArgument, IsLater, Later, Piece, line, split_command_line-line, word, words,
}
use cush.Pexpect.Polling.{Files, which}
use cush.Pexpect.Polling.Heard.{first_executable, tried, which-first_executable}
use cush.Pexpect.Start.{
  Call, Fork, Object, Settings, Start, after_fork, calls, find_command, fork_fails, in_child,
  in_parent, list, named, new_object, new_process, ready, spawn, spawn_child, start_raises,
  with_path, words_of,
}
use cush.Pexpect.Start.Started.{IsChild, child_calls-IsChild}

module _ (files : Files) (max_fd : ℕ) (s : Settings) where
  -- The object with its child.
  pub record HasChild (fork : Fork) (words : List Text) (o : Object) : Type 0 where
    pub pid : ℕ
    pub fd : ℕ
    pub name : Text
    pub rest : List Text
    pub path : Text
    pub forked : fork ≡ in_parent pid fd
    pub splits : words ≡ name ∷ rest
    pub found : first_executable files (tried files name) ≡ some path
    pub command : o.command ≡ some path
    pub args : o.args ≡ some (path ∷ rest)
    pub child : o.pid ≡ some pid
    pub process :
        o.process ≡ record (new_process s) { child_fd = pos fd; terminated = false; closed = false }

  -- Why there is no child: no words, no such command, or no fork.
  abbrev pub NoCommand : Fork → List Text → Type 0
  NoCommand fork [] = Unit
  NoCommand fork (w ∷ rest) = (first_executable files (tried files w) ≡ none) ⊎ (fork ≡ fork_fails)

  -- The object without a child, as the constructor begins with it.
  abbrev pub NoChild : Fork → List Text → Object → Type 0
  NoChild fork words o = (o.pid ≡ none) × ((o.process ≡ new_process s) × NoCommand fork words)

  -- The child, which is to become the command.
  pub record BecomesCommand (fork : Fork) (words : List Text) (cs : List Call) : Type 0 where
    pub name : Text
    pub rest : List Text
    pub path : Text
    pub forked : fork ≡ in_child
    pub splits : words ≡ name ∷ rest
    pub found : first_executable files (tried files name) ≡ some path
    pub child : IsChild max_fd s path (path ∷ rest) cs

  abbrev pub IsStarted : Fork → List Text → Start × Object → Type 0
  IsStarted fork words (ready, o) = HasChild fork words o
  IsStarted fork words (start_raises e, o) = NoChild fork words o
  IsStarted fork words (calls cs, o) = BecomesCommand fork words cs

  fork-IsStarted :
      (w : Text) (rest : List Text) (path : Text) (fork : Fork)
      → first_executable files (tried files w) ≡ some path
      → IsStarted fork (w ∷ rest) (
          after_fork max_fd s path
            (path ∷ rest)
            fork
            (record (new_object s) { command = some path; args = some (path ∷ rest) }))
  fork-IsStarted w rest path fork_fails h = (refl, (refl, inr refl))
  fork-IsStarted w rest path (in_parent pid fd) h = record {
    pid = pid;
    fd = fd;
    name = w;
    rest = rest;
    path = path;
    forked = refl;
    splits = refl;
    found = h;
    command = refl;
    args = refl;
    child = refl;
    process = refl;
  }
  fork-IsStarted w rest path in_child h = record {
    name = w;
    rest = rest;
    path = path;
    forked = refl;
    splits = refl;
    found = h;
    child = child_calls-IsChild max_fd s path (path ∷ rest);
  }

  with_path-IsStarted :
      (w : Text) (rest : List Text) (fork : Fork) (found : Option Text)
      → first_executable files (tried files w) ≡ found
      → IsStarted fork (w ∷ rest) (
          with_path max_fd s fork rest found
            (record (new_object s) { command = some w; args = some (w ∷ rest) }))
  with_path-IsStarted w rest fork none h = (refl, (refl, inl h))
  with_path-IsStarted w rest fork (some path) h = fork-IsStarted w rest path fork h

  find_command-IsStarted :
      (words : List Text) (fork : Fork)
      → IsStarted fork words (find_command files max_fd s fork words (new_object s))
  find_command-IsStarted [] fork = (refl, (refl, tt))
  find_command-IsStarted (w ∷ rest) fork =
      with_path-IsStarted w rest fork (which files w) (sym (which-first_executable files w))

  -- The words of a start are the command and its arguments or, without arguments, those of the command
  -- line. Where the constructor returns, it is in the parent, and the object holds the path of the first
  -- word's executable, this path and the other words as arguments, and the process that was forked, alive and
  -- open. Where it raises, there are no words, there is no such executable or the fork fails, and the object
  -- has no process and is closed. Otherwise it is in the child: this becomes the program at the path with
  -- these arguments or leaves the constructor by an exception, and closes all descriptors below the limit but
  -- the three standard ones.
  pub spawn-IsStarted :
      (fork : Fork) (command : Text) (args : List Text)
      → IsStarted fork
          (words_of command args)
          (spawn files max_fd s fork (named command) (list args))
  unfolding spawn spawn_child
  spawn-IsStarted fork command args = find_command-IsStarted (words_of command args) fork

  -- A command line that begins with an argument, however its non-empty arguments are quoted and separated,
  -- starts the executable of the first argument with exactly the others: in the parent the object says so, and in
  -- the child it is what the calls end in, if they end in a program.
  pub spawn-line :
      (fork : Fork) (ps : List Piece) (more : List Later)
      → IsArgument ps
      → All IsLater more
      → IsStarted fork
          (word ps ∷ words more)
          (spawn files max_fd s fork (named (line ps more)) (list []))
  spawn-line fork ps more h k =
      subst (λ ws. IsStarted fork ws (spawn files max_fd s fork (named (line ps more)) (list [])))
        (split_command_line-line ps more h k) (spawn-IsStarted fork (line ps more) [])
