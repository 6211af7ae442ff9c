-- ===== src/Pexpect/Polling.antt =====
-- pexpect-dpty/pexpect.py: the loops of `waitnoecho` and `__select`, and the search of `which`. What the
-- terminal, `select` and the clock yield is an argument; times are in milliseconds.
pub mod Heard
mod Tests
use cush.Prelude.{ℕ, Bool, true, false, not, ◌&&◌, Option, none, some, List, [], ◌∷◌, if◌then◌else◌}
use cush.Prelude.Int.{ℤ}
use cush.Prelude.Text.{Text, text_eq}
use cush.Pexpect.Expect.{deadline, default_timeout, expired, remaining, resolve}

-- A pass of the loop of `waitnoecho`: the ECHO flag, and the clock behind it.
pub record Look : Type 0 where
  pub echo : Bool
  pub clock : ℤ

-- `none`: the passes have run out and the loop goes on.
unfoldable pub echo_loop : Option ℤ → Option ℤ → List Look → Option Bool
echo_loop end_time timeout [] = none
echo_loop end_time timeout (l ∷ looks) =
    let rest = echo_loop end_time (remaining end_time l.clock) looks in
    if not l.echo then some true else if expired timeout then some false else rest

unfoldable pub waitnoecho : Option ℤ → Option ℤ → ℤ → List Look → Option Bool
unfolding echo_loop
waitnoecho default timeout start looks =
    let t = resolve default_timeout default timeout in echo_loop (deadline start t) t looks

-- What `select.select` does: it tells whether the file can be read, is interrupted by a signal (with
-- the clock then), or raises another error.
pub data Selected : Type 0 where
  answer : Bool → Selected
  interrupted : ℤ → Selected
  select_error : Selected

-- How `__select` ends.
pub data Select : Type 0 where
  readable : Bool → Select
  raises_error blocked : Select

-- if timeout < 0: return ([],[],[])
abbrev pub after_signal : Option ℤ → Select → Select
after_signal timeout rest = if expired timeout then readable false else rest

unfoldable pub select_loop : Option ℤ → List Selected → Select
select_loop end_time [] = blocked
select_loop end_time (answer r ∷ more) = readable r
select_loop end_time (interrupted now ∷ more) =
    after_signal (remaining end_time now) (select_loop end_time more)
select_loop end_time (select_error ∷ more) = raises_error

unfoldable pub select_fd : Option ℤ → ℤ → List Selected → Select
unfolding select_loop
select_fd timeout start more = select_loop (deadline start timeout) more

-- What `which` uses of `os` and of the environment.
pub record Files : Type 0 where
  pub dirname : Text → Text
  pub is_executable : Text → Bool
  pub join : Text → Text → Text
  pub path : Option Text
  pub defpath : Text
  pub split_path : Text → List Text

module _ (files : Files) where
  abbrev pub search_path : Option Text → Text
  search_path none = files.defpath
  search_path (some p) = if text_eq p [] then files.defpath else p

  unfoldable pub which_in : Text → List Text → Option Text
  which_in filename [] = none
  which_in filename (path ∷ pathlist) =
      let f = files.join path filename in
      if files.is_executable f then some f else which_in filename pathlist

  unfoldable pub which : Text → Option Text
  unfolding which_in
  which filename =
      if not (text_eq (files.dirname filename) []) && files.is_executable filename
      then some filename
      else which_in filename (files.split_path (search_path files.path))
