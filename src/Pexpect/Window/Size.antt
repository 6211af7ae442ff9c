-- ===== src/Pexpect/Window/Size.antt =====
-- pexpect-dpty/pexpect.py: the size that `setwinsize` sets is the one that `getwinsize` gives.
use cush.Prelude.{
  ℕ, ◌*◌, ◌/◌, ◌%◌, ◌<◌, ◌≡◌, refl, sym, ap, ◌∙◌, inl, inr, Bool, true, false, Option, none, some,
  List, [], ◌∷◌, ◌++◌, arith, ltb, Bool-cases, All, length,
}
use cush.Prelude.Int.{ℤ, negsuc, pos}
use cush.Prelude.Text.{Text}
use cush.Pexpect.Window.{
  Ioctl, Sized, answers, append_packed, get_code, get_with, getwinsize, io_error, pack_short,
  pack_shorts, read_size, set_code, set_with, setwinsize, struct_error, told, unpack_short,
  unpack_shorts,
}

abbrev pub IsShort : ℤ → Type 0
IsShort (pos n) = n < 65536
IsShort (negsuc n) = ⊥

-- What packing one number gives: two bytes that say it, or nothing for a number out of range.
abbrev Packed : Bool → ℤ → Option Text → Type 0
Packed little z none = ¬ IsShort z
Packed little z (some t) =
    IsShort z × ((a : ℕ) × (b : ℕ) × (t ≡ a ∷ b ∷ []) × (unpack_short little a b ≡ z))

pack_short-Packed : (little : Bool) (z : ℤ) → Packed little z (pack_short little z)
pack_short-Packed true (negsuc n) = λ h. h
pack_short-Packed false (negsuc n) = λ h. h
pack_short-Packed true (pos n) = elim (Bool-cases (ltb n 65536)) [
  | inl e ↦ rw e (ground (arith, e), (n % 256, n / 256, refl, ap pos (omega arith)))
  | inr e ↦ rw e (λ h. ground (arith, e, h))
]
pack_short-Packed false (pos n) = elim (Bool-cases (ltb n 65536)) [
  | inl e ↦ rw e (ground (arith, e), (n / 256, n % 256, refl, ap pos (omega arith)))
  | inr e ↦ rw e (λ h. ground (arith, e, h))
]

abbrev AllPacked : Bool → List ℤ → Option Text → Type 0
AllPacked little zs none = ¬ All IsShort zs
AllPacked little zs (some t) =
    All IsShort zs × (unpack_shorts little (length zs) t ≡ some zs) × (length t ≡ 2 * length zs)

append_packed-AllPacked :
    (little : Bool) (z : ℤ) (zs : List ℤ) (o p : Option Text)
    → Packed little z o
    → AllPacked little zs p
    → AllPacked little (z ∷ zs) (append_packed o p)
unfolding unpack_shorts
append_packed-AllPacked little z zs none p h k = λ (s, rest). h s
append_packed-AllPacked little z zs (some t) none h k = λ (s, rest). k rest
append_packed-AllPacked little z zs (some t) (some u) (s, (a, b, e, v)) (ss, k, l) =
    ((s, ss), rw (e, k) (ap (λ x. some (x ∷ zs)) v), ap (λ x. length (x ++ u)) e ∙ omega (arith, l))

pack_shorts-AllPacked : (little : Bool) (zs : List ℤ) → AllPacked little zs (pack_shorts little zs)
unfolding pack_shorts unpack_shorts
pack_shorts-AllPacked little [] = (tt, refl, refl)
pack_shorts-AllPacked little (z ∷ zs) =
    append_packed-AllPacked little z zs (pack_short little z) (pack_shorts little zs)
      (pack_short-Packed little z) (pack_shorts-AllPacked little zs)

module _ {W : Type 0} (system : Ioctl W) where
  -- After a call that sets the window, a call that reads it gives the same bytes, as many as it is given.
  abbrev pub Keeps : ℤ → Text → Option Text × W → Type 0
  Keeps fd s (none, w) = Unit
  Keeps fd s (some x, w) =
      (t : Text) → length t ≡ length s → (system.ioctl (get_code system) fd t w).0 ≡ some s

  -- How `setwinsize` ends: `getwinsize` then gives the two numbers; or the call raises an IOError; or a number does
  -- not fit, and nothing has changed.
  abbrev pub TellsSize : ℤ → ℤ → ℤ → W → Sized (Unit {0}) × W → Type 0
  TellsSize r c fd w (answers x, w') =
      IsShort r × IsShort c × ((getwinsize system fd w').0 ≡ answers (r, c))
  TellsSize r c fd w (io_error, w') = IsShort r × IsShort c
  TellsSize r c fd w (struct_error, w') = (w' ≡ w) × ¬ (IsShort r × IsShort c)

  read_size-answers :
      (r c : ℤ) (rest : List ℤ) (s : Text) (q : Option Text × W)
      → q.0 ≡ some s
      → unpack_shorts system.little_endian 4 s ≡ some (r ∷ c ∷ rest)
      → (read_size system q).0 ≡ answers (r, c)
  read_size-answers r c rest s (none, w) h u = absurd cc
  read_size-answers r c rest s (some x, w) h u = let same : x ≡ s = cc in rw (same, u) refl

  getwinsize-answers :
      (r c fd : ℤ) (rest : List ℤ) (s : Text) (w : W)
      → ((t : Text) → length t ≡ 8 → (system.ioctl (get_code system) fd t w).0 ≡ some s)
      → unpack_shorts system.little_endian 4 s ≡ some (r ∷ c ∷ rest)
      → (getwinsize system fd w).0 ≡ answers (r, c)
  unfolding getwinsize
  getwinsize-answers r c fd rest s w h u =
      go (pack_shorts system.little_endian zeros) (pack_shorts-AllPacked system.little_endian zeros)
    where
      zeros : List ℤ
      zeros = pos 0 ∷ pos 0 ∷ pos 0 ∷ pos 0 ∷ []

      go :
          (o : Option Text)
          → AllPacked system.little_endian zeros o
          → (get_with system fd o w).0 ≡ answers (r, c)
      go none n = absurd (n (omega arith, (omega arith, (omega arith, (omega arith, tt)))))
      go (some t) (a, b, l) =
          read_size-answers r c rest s (system.ioctl (get_code system) fd t w) (h t l) u

  told-TellsSize :
      (r c fd : ℤ) (w : W) (s : Text) (q : Option Text × W)
      → Keeps fd s q
      → AllPacked system.little_endian (r ∷ c ∷ pos 0 ∷ pos 0 ∷ []) (some s)
      → TellsSize r c fd w (told system q)
  told-TellsSize r c fd w s (none, w') k ((a, (b, rest)), u, l) = (a, b)
  told-TellsSize r c fd w s (some x, w') k ((a, (b, rest)), u, l) =
      (a, b, getwinsize-answers r c fd (pos 0 ∷ pos 0 ∷ []) s w' (λ t m. k t (m ∙ sym l)) u)

  -- If the terminal keeps the window that is set, and gives as many bytes of it as it is asked for: where
  -- `setwinsize` returns, `getwinsize` gives the rows and the columns that were set; it raises an error of `struct`
  -- exactly if one of them is negative or does not fit into sixteen bits, and then it changes nothing; otherwise it
  -- may raise an IOError.
  pub setwinsize-TellsSize :
      (r c fd : ℤ) (w : W)
      → ((s : Text) → Keeps fd s (system.ioctl (set_code system) fd s w))
      → TellsSize r c fd w (setwinsize system r c fd w)
  unfolding setwinsize
  setwinsize-TellsSize r c fd w keeps =
      go (pack_shorts system.little_endian (r ∷ c ∷ pos 0 ∷ pos 0 ∷ []))
        (pack_shorts-AllPacked system.little_endian (r ∷ c ∷ pos 0 ∷ pos 0 ∷ []))
    where
      go :
          (o : Option Text)
          → AllPacked system.little_endian (r ∷ c ∷ pos 0 ∷ pos 0 ∷ []) o
          → TellsSize r c fd w (set_with system fd o w)
      go none n = (refl, λ (a, b). n (a, (b, (omega arith, (omega arith, tt)))))
      go (some s) p = told-TellsSize r c fd w s (system.ioctl (set_code system) fd s w) (keeps s) p
