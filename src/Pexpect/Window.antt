-- ===== src/Pexpect/Window.antt =====
-- pexpect-dpty/pexpect.py: `getwinsize` and `setwinsize`. The terminal's window is reached by `fcntl.ioctl`.
pub mod Size
mod Tests
use cush.Prelude.{
  ℕ, zero, suc, ◌+◌, ◌*◌, ◌/◌, ◌%◌, Bool, true, false, Option, none, some, List, [], ◌∷◌, ◌++◌, ltb,
  if◌then◌else◌,
}
use cush.Prelude.Int.{ℤ, minus, negsuc, pos, ◌==ℤ◌}
use cush.Prelude.Text.{Text}

-- The byte order, the constants of `termios` that there are, and `fcntl.ioctl`, which gives nothing where it
-- raises an IOError.
pub record Ioctl (W : Type 0) : Type 0 where
  pub little_endian : Bool
  pub tiocgwinsz : Option ℤ
  pub tiocswinsz : Option ℤ
  pub ioctl : ℤ → ℤ → Text → W → Option Text × W

pub data Sized (A : Type 0) : Type 0 where
  answers : A → Sized A
  io_error struct_error : Sized A

-- struct.pack and struct.unpack, for the format 'H' and a sequence of them
abbrev pub pack_short : Bool → ℤ → Option Text
pack_short true (pos n) = if ltb n 65536 then some (n % 256 ∷ n / 256 ∷ []) else none
pack_short false (pos n) = if ltb n 65536 then some (n / 256 ∷ n % 256 ∷ []) else none
pack_short little (negsuc n) = none

abbrev pub append_packed : Option Text → Option Text → Option Text
append_packed (some a) (some b) = some (a ++ b)
append_packed (some a) none = none
append_packed none o = none

unfoldable pub pack_shorts : Bool → List ℤ → Option Text
pack_shorts little [] = some []
pack_shorts little (z ∷ zs) = append_packed (pack_short little z) (pack_shorts little zs)

abbrev pub unpack_short : Bool → ℕ → ℕ → ℤ
unpack_short true a b = pos (a + 256 * b)
unpack_short false a b = pos (256 * a + b)

abbrev pub prepend_short : ℤ → Option (List ℤ) → Option (List ℤ)
prepend_short z none = none
prepend_short z (some zs) = some (z ∷ zs)

-- `count` numbers, from as many bytes as they take.
unfoldable pub unpack_shorts : Bool → ℕ → Text → Option (List ℤ)
unpack_shorts little zero [] = some []
unpack_shorts little zero (a ∷ t) = none
unpack_shorts little (suc count) [] = none
unpack_shorts little (suc count) (a ∷ []) = none
unpack_shorts little (suc count) (a ∷ b ∷ t) =
    prepend_short (unpack_short little a b) (unpack_shorts little count t)

abbrev pub default_code : ℤ → Option ℤ → ℤ
default_code default none = default
default_code default (some code) = code

module _ {W : Type 0} (system : Ioctl W) where
  abbrev pub get_code : ℤ
  get_code = default_code (pos 1074295912) system.tiocgwinsz

  -- The number with the sign bit is written as a negative one.
  abbrev pub signed_code : ℤ → ℤ
  signed_code code = if code ==ℤ pos 2148037735 then minus 2146929561 else code

  abbrev pub set_code : ℤ
  set_code = signed_code (default_code (minus 2146929561) system.tiocswinsz)

  -- struct.unpack('HHHH', x)[0:2]
  abbrev pub first_two : Option (List ℤ) → Sized (ℤ × ℤ)
  first_two (some (r ∷ c ∷ zs)) = answers (r, c)
  first_two _ = struct_error

  abbrev pub read_size : Option Text × W → Sized (ℤ × ℤ) × W
  read_size (none, w) = (io_error, w)
  read_size (some x, w) = (first_two (unpack_shorts system.little_endian 4 x), w)

  abbrev pub get_with : ℤ → Option Text → W → Sized (ℤ × ℤ) × W
  get_with fd none w = (struct_error, w)
  get_with fd (some s) w = read_size (system.ioctl get_code fd s w)

  unfoldable pub getwinsize : ℤ → W → Sized (ℤ × ℤ) × W
  unfolding pack_shorts unpack_shorts
  getwinsize fd =
      get_with fd (pack_shorts system.little_endian (pos 0 ∷ pos 0 ∷ pos 0 ∷ pos 0 ∷ []))

  abbrev pub told : Option Text × W → Sized (Unit {0}) × W
  told (none, w) = (io_error, w)
  told (some x, w) = (answers tt, w)

  abbrev pub set_with : ℤ → Option Text → W → Sized (Unit {0}) × W
  set_with fd none w = (struct_error, w)
  set_with fd (some s) w = told (system.ioctl set_code fd s w)

  unfoldable pub setwinsize : ℤ → ℤ → ℤ → W → Sized (Unit {0}) × W
  unfolding pack_shorts
  setwinsize r c fd = set_with fd (pack_shorts system.little_endian (r ∷ c ∷ pos 0 ∷ pos 0 ∷ []))
