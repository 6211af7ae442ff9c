-- ===== src/Pexpect/CommandLine.antt =====
-- pexpect-dpty/pexpect.py: `split_command_line`.
pub mod RoundTrip
use cush.Prelude.{ℕ, Bool, true, false, List, [], ◌∷◌, ◌++◌, ◌==◌, if◌then◌else◌}
use cush.Prelude.Text.{Text, is_space}

pub data State : Type 0 where
  basic esc singlequote doublequote whitespace : State

-- The variables of the loop.
pub record Splitter : Type 0 where
  pub arg_list : List Text
  pub arg : Text
  pub state : State

-- arg = arg + c
abbrev pub add_char : Splitter → ℕ → State → Splitter
add_char s c state = record s { arg = s.arg ++ c ∷ []; state = state }

-- At a blank; the flag is `state == state_whitespace`.
abbrev pub end_arg : Bool → Splitter → Splitter
end_arg true s = s
end_arg false s = record { arg_list = s.arg_list ++ s.arg ∷ []; arg = []; state = whitespace }

abbrev pub step_between : Bool → Splitter → ℕ → Splitter
step_between blank s c =
    if c == b'\\'
    then record s { state = esc }
    else if c == b'\''
    then record s { state = singlequote }
    else if c == b'"'
    then record s { state = doublequote }
    else if is_space c
    then end_arg blank s
    else add_char s c basic

unfoldable pub step_in : State → Splitter → ℕ → Splitter
step_in basic s c = step_between false s c
step_in whitespace s c = step_between true s c
step_in esc s c = add_char s c basic
step_in singlequote s c =
    if c == b'\'' then record s { state = basic } else add_char s c singlequote
step_in doublequote s c = if c == b'"' then record s { state = basic } else add_char s c doublequote

unfoldable pub split_from : Splitter → Text → Splitter
unfolding step_in
split_from s [] = s
split_from s (c ∷ rest) = split_from (step_in s.state s c) rest

-- if arg != '': arg_list.append(arg)
abbrev pub last_arg : List Text → Text → List Text
last_arg args [] = args
last_arg args (c ∷ arg) = args ++ (c ∷ arg) ∷ []

abbrev pub initial : Splitter
initial = record { arg_list = []; arg = []; state = basic }

unfoldable pub split_command_line : Text → List Text
unfolding split_from
split_command_line command_line =
    let s = split_from initial command_line in last_arg s.arg_list s.arg
