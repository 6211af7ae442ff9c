-- ===== src/Pexpect/Reading/Split.antt =====
-- A text as its lines, each with the line end that `readline` looks for.
use cush.Prelude.{
  ℕ, suc, ◌≡◌, refl, sym, ap, ◌∙◌, Bool, true, false, ◌&&◌, List, [], ◌∷◌, ◌++◌, ◌==◌, arith,
  if◌then◌else◌, length, drop, append_assoc, append-nil,
}
use cush.Prelude.Text.{Text, codes, starts_with}
use cush.Pexpect.Searcher.Find.{NoneBefore}

abbrev pub line_end : Text
line_end = codes "\r\n"

abbrev pub last_line : Text → List Text
last_line [] = []
last_line (c ∷ t) = (c ∷ t) ∷ []

-- The lines of a text, behind the start of a line.
unfoldable pub split_from : Text → Text → List Text
split_from start [] = last_line start
split_from start (c ∷ []) = last_line (start ++ c ∷ [])
split_from start (c ∷ d ∷ t) =
    let here = (start ++ line_end) ∷ split_from [] t in
    let later = split_from (start ++ c ∷ []) (d ∷ t) in
    if b'\r' == c && b'\n' == d then here else later

unfoldable pub split_lines : Text → List Text
unfolding split_from
split_lines t = split_from [] t

module _ (start : Text) where
  split_from-skip :
      (c : ℕ) (t : Text)
      → starts_with line_end (c ∷ t) ≡ false
      → split_from start (c ∷ t) ≡ split_from (start ++ c ∷ []) t
  unfolding split_from
  split_from-skip c [] h = refl
  split_from-skip c (d ∷ t) h = rw (same (b'\r' == c) (b'\n' == d) h) refl
    where
      same : (a b : Bool) → (a && (b && true)) ≡ false → (a && b) ≡ false
      same true true e = e
      same true false e = refl
      same false b e = refl

-- The first line of a text that begins with a line.
pub split_from-line :
    (start b u rest : Text)
    → NoneBefore line_end (b ++ (line_end ++ u)) (length b)
    → split_from start (b ++ (line_end ++ rest)) ≡ (start ++ (b ++ line_end)) ∷ split_from [] rest
unfolding split_from
split_from-line start [] u rest h = refl
split_from-line start (c ∷ []) u rest h =
    split_from-skip start c (line_end ++ rest) (h 0 (omega arith))
    ∙ ap (λ l. l ∷ split_from [] rest) (append_assoc start (c ∷ []) line_end)
split_from-line start (c ∷ d ∷ b) u rest h =
    split_from-skip start c (d ∷ (b ++ (line_end ++ rest))) (h 0 (omega arith))
    ∙ split_from-line (start ++ c ∷ []) (d ∷ b) u rest (λ n l. h (suc n) (omega arith))
    ∙ ap (λ l. l ∷ split_from [] rest) (append_assoc start (c ∷ []) (d ∷ (b ++ line_end)))

-- A text without a line end is one line, if it is not empty.
pub split_from-last :
    (start t : Text)
    → ((n : ℕ) → starts_with line_end (drop n t) ≡ false)
    → split_from start t ≡ last_line (start ++ t)
unfolding split_from
split_from-last start [] h = ap last_line (sym (append-nil start))
split_from-last start (c ∷ t) h =
    split_from-skip start c t (h 0)
    ∙ split_from-last (start ++ c ∷ []) t (λ n. h (suc n))
    ∙ ap last_line (append_assoc start (c ∷ []) t)
