-- ===== src/Pexpect/Reading/Lines.antt =====
-- pexpect-dpty/pexpect.py: `readlines`. The calls of `readline` share the rounds: each begins with those
-- that the one before has left unread.
use cush.Prelude.{Bool, none, some, List, [], ◌∷◌, if◌then◌else◌}
use cush.Prelude.Int.{ℤ, negsuc, pos, ◌==ℤ◌}
use cush.Prelude.Text.{Text, codes}
use cush.Pexpect.Searcher.{Item}
use cush.Pexpect.Expect.{Round, Spawn, default_timeout, nothing, value}
use cush.Pexpect.Expect.Story.{unread}
use cush.Pexpect.Pattern.{
  Compiled, Pattern, Re, compile_pattern_list, compiles, regex_error, searcher_re, several, source,
  type_error,
}
use cush.Pexpect.Reading.{Answer, gives, no_answer, readline}

-- What `readlines` gives: the lines, or what stopped a call of `readline`.
pub data Gathered : Type 0 where
  gathered : List Text → Gathered
  stopped : Answer → Gathered

abbrev pub prepend : Text → Gathered → Gathered
prepend line (gathered lines) = gathered (line ∷ lines)
prepend line (stopped a) = stopped a

module _ {R M : Type 0} (re : Re R M) (ignorecase : Bool) (delimiter : Pattern R)
    (size_pattern : ℤ → R) where
  abbrev pub compiled_unread : Compiled (List (Item R)) → Spawn M → ℤ → List Round → List Round
  compiled_unread (compiles items) self now rounds =
      unread (searcher_re re items) self (some default_timeout) none now rounds
  compiled_unread type_error self now rounds = rounds
  compiled_unread regex_error self now rounds = rounds

  -- The rounds that `readline` does not read.
  unfoldable pub line_unread : ℤ → Spawn M → ℤ → List Round → List Round
  unfolding compile_pattern_list
  line_unread size self now rounds =
      if size ==ℤ pos 0
      then rounds
      else compiled_unread
          (compile_pattern_list re ignorecase (several (source (codes "\r\n") ∷ delimiter ∷ [])))
          self now rounds

  -- if not line: break, or else lines.append(line)
  abbrev pub gather : Answer × Spawn M → Gathered × Spawn M → Gathered × Spawn M
  gather (gives (value []), s) rest = (gathered [], s)
  gather (gives nothing, s) rest = (gathered [], s)
  gather (gives (value (c ∷ line)), s) (g, s') = (prepend (c ∷ line) g, s')
  gather (a, s) rest = (stopped a, s)

  -- The clock at the start of each call of `readline` is an argument; where these run out, the loop goes
  -- on.
  unfoldable pub readlines : List ℤ → Spawn M → List Round → Gathered × Spawn M
  unfolding readline line_unread
  readlines [] self rounds = (stopped no_answer, self)
  readlines (now ∷ starts) self rounds =
      let r = readline re ignorecase delimiter size_pattern (negsuc 0) self now rounds in
      gather r (readlines starts r.1 (line_unread (negsuc 0) self now rounds))
