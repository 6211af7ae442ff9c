-- ===== src/Pexpect/Window/Tests.antt =====
-- The size of the window, for a terminal that holds eight bytes.
use cush.Prelude.{◌≡◌, refl, true, some, [], ◌∷◌}
use cush.Prelude.Int.{pos, ◌==ℤ◌}
use cush.Prelude.Text.{Text}
use cush.Prelude.{if◌then◌else◌}
use cush.Pexpect.Window.{Ioctl, pack_shorts, setwinsize, struct_error}
use cush.Pexpect.Window.Size.{TellsSize, setwinsize-TellsSize}

abbrev system : Ioctl Text
system = record {
  little_endian = true;
  tiocgwinsz = some (pos 21523);
  tiocswinsz = some (pos 21524);
  ioctl = λ code fd s w. if code ==ℤ pos 21524 then (some s, s) else (some w, w);
}

test_setwinsize :
    ((setwinsize system (pos 24) (pos 200) (pos 3) []).1 ≡ 24 ∷ 0 ∷ 200 ∷ 0 ∷ 0 ∷ 0 ∷ 0 ∷ 0 ∷ [])
    × ((setwinsize system (pos 24) (pos 65536) (pos 3) []).0 ≡ struct_error)
unfolding setwinsize pack_shorts
test_setwinsize = (refl, refl)

setwinsize-TellsSize_example :
    TellsSize system (pos 24) (pos 200) (pos 3) [] (setwinsize system (pos 24) (pos 200) (pos 3) [])
setwinsize-TellsSize_example =
    setwinsize-TellsSize system (pos 24) (pos 200) (pos 3) [] (λ s t l. refl)
