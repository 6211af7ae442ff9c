-- ===== src/Pexpect/CommandLine/RoundTrip.antt =====
-- `split_command_line` on lines that are written out from arguments.
use cush.Prelude.{
  ℕ, ◌≡◌, ◌≢◌, refl, sym, ap, ◌∙◌, Bool, true, false, not, ◌&&◌, List, [], ◌∷◌, ◌++◌, arith, ◌==◌,
  append_assoc, append-nil, All,
}
use cush.Prelude.Text.{Text, is_space}
use cush.Pexpect.CommandLine.{
  Splitter, State, basic, doublequote, esc, singlequote, split_command_line, split_from, whitespace,
  last_arg,
}

-- A piece of an argument as a user may write it: a plain character, an escaped one, or a quotation.
pub data Piece : Type 0 where
  plain escaped : ℕ → Piece
  single double : Text → Piece

-- Neither a blank nor one of the three characters with a meaning.
abbrev pub is_plain : ℕ → Bool
is_plain c = not (is_space c) && not (c == b'\\') && not (c == b'\'') && not (c == b'"')

-- The text holds no such character.
abbrev pub Free : ℕ → Text → Type 0
Free q [] = Unit
Free q (c ∷ t) = ((c == q) ≡ false) × Free q t

abbrev pub IsWritten : Piece → Type 0
IsWritten (plain c) = is_plain c ≡ true
IsWritten (escaped c) = Unit
IsWritten (single t) = Free b'\'' t
IsWritten (double t) = Free b'"' t

abbrev pub content : Piece → Text
content (plain c) = c ∷ []
content (escaped c) = c ∷ []
content (single t) = t
content (double t) = t

abbrev pub written : Piece → Text
written (plain c) = c ∷ []
written (escaped c) = b'\\' ∷ c ∷ []
written (single t) = b'\'' ∷ (t ++ b'\'' ∷ [])
written (double t) = b'"' ∷ (t ++ b'"' ∷ [])

-- The argument that some pieces make, and its text on the command line.
abbrev pub word : List Piece → Text
word [] = []
word (p ∷ ps) = content p ++ word ps

abbrev pub typed : List Piece → Text
typed [] = []
typed (p ∷ ps) = written p ++ typed ps

-- Between arguments, or within one.
abbrev IsBetween : State → Type 0
IsBetween basic = Unit
IsBetween whitespace = Unit
IsBetween _ = ⊥

abbrev at : List Text → Text → State → Splitter
at args arg state = record { arg_list = args; arg = arg; state = state }

module _ (args : List Text) (rest : Text) where
  split-singlequote :
      (t arg : Text)
      → Free b'\'' t
      → split_from (at args arg singlequote) (t ++ (b'\'' ∷ rest))
        ≡ split_from (at args (arg ++ t) basic) rest
  unfolding split_from
  split-singlequote [] arg f = rw append-nil
  split-singlequote (c ∷ t) arg (n, f) =
      rw (n, split_from) (split-singlequote t (arg ++ c ∷ []) f ∙ rw append_assoc)

  split-doublequote :
      (t arg : Text)
      → Free b'"' t
      → split_from (at args arg doublequote) (t ++ (b'"' ∷ rest))
        ≡ split_from (at args (arg ++ t) basic) rest
  unfolding split_from
  split-doublequote [] arg f = rw append-nil
  split-doublequote (c ∷ t) arg (n, f) =
      rw (n, split_from) (split-doublequote t (arg ++ c ∷ []) f ∙ rw append_assoc)

  -- A piece adds its content to the argument at hand.
  split_piece :
      (arg : Text) (state : State) (p : Piece)
      → IsBetween state
      → IsWritten p
      → split_from (at args arg state) (written p ++ rest)
        ≡ split_from (at args (arg ++ content p) basic) rest
  unfolding split_from
  split_piece arg basic (plain c) b w = ground arith
  split_piece arg basic (escaped c) b w = refl
  split_piece arg basic (single t) b w = rw append_assoc (split-singlequote t arg w)
  split_piece arg basic (double t) b w = rw append_assoc (split-doublequote t arg w)
  split_piece arg whitespace (plain c) b w = ground arith
  split_piece arg whitespace (escaped c) b w = refl
  split_piece arg whitespace (single t) b w = rw append_assoc (split-singlequote t arg w)
  split_piece arg whitespace (double t) b w = rw append_assoc (split-doublequote t arg w)
  split_piece arg esc p b w = elim b [ ]
  split_piece arg singlequote p b w = elim b [ ]
  split_piece arg doublequote p b w = elim b [ ]

split_basic :
    (args : List Text) (rest arg : Text) (ps : List Piece)
    → All IsWritten ps
    → split_from (at args arg basic) (typed ps ++ rest)
      ≡ split_from (at args (arg ++ word ps) basic) rest
split_basic args rest arg [] w = rw append-nil
split_basic args rest arg (p ∷ ps) (w, ws) =
    ap (split_from (at args arg basic)) (append_assoc (written p) (typed ps) rest)
    ∙ split_piece args (typed ps ++ rest) arg basic p tt w
    ∙ split_basic args rest (arg ++ content p) ps ws
    ∙ ap (λ t. split_from (at args t basic) rest) (append_assoc arg (content p) (word ps))

abbrev pub IsArgument : List Piece → Type 0
IsArgument ps = All IsWritten ps × (word ps ≢ [])

-- An argument behind the first, with the blanks in front of it: at least one.
pub record Later : Type 0 where
  pub blank : ℕ
  pub blanks : Text
  pub pieces : List Piece

abbrev pub IsLater : Later → Type 0
IsLater l = (is_space l.blank ≡ true) × All (λ c. is_space c ≡ true) l.blanks × IsArgument l.pieces

abbrev pub line : List Piece → List Later → Text
line ps [] = typed ps
line ps (l ∷ more) = typed ps ++ (l.blank ∷ (l.blanks ++ line l.pieces more))

abbrev pub words : List Later → List Text
words [] = []
words (l ∷ more) = word l.pieces ∷ words more

split_blanks :
    (args : List Text) (bs rest : Text)
    → All (λ c. is_space c ≡ true) bs
    → split_from (at args [] whitespace) (bs ++ rest) ≡ split_from (at args [] whitespace) rest
unfolding split_from
split_blanks args [] rest h = refl
split_blanks args (c ∷ bs) rest (b, h) = ground (arith, split_blanks args bs rest h)

split_end_arg :
    (args : List Text) (arg rest : Text) (c : ℕ)
    → is_space c ≡ true
    → split_from (at args arg basic) (c ∷ rest)
      ≡ split_from (at (args ++ arg ∷ []) [] whitespace) rest
unfolding split_from
split_end_arg args arg rest c h = ground arith

split_argument :
    (args : List Text) (state : State) (ps : List Piece) (rest : Text)
    → IsBetween state
    → IsArgument ps
    → split_from (at args [] state) (typed ps ++ rest) ≡ split_from (at args (word ps) basic) rest
split_argument args state [] rest b (w, ne) = absurd (ne refl)
split_argument args state (p ∷ ps) rest b ((w, ws), ne) =
    ap (split_from (at args [] state)) (append_assoc (written p) (typed ps) rest)
    ∙ split_piece args (typed ps ++ rest) [] state p b w
    ∙ split_basic args rest (content p) ps ws

abbrev result : Splitter → List Text
result s = last_arg s.arg_list s.arg

result-basic : (args : List Text) (arg : Text) → arg ≢ [] → last_arg args arg ≡ args ++ arg ∷ []
result-basic args [] ne = absurd (ne refl)
result-basic args (c ∷ arg) ne = refl

split_line :
    (args : List Text) (state : State) (ps : List Piece) (more : List Later)
    → IsBetween state
    → IsArgument ps
    → All IsLater more
    → result (split_from (at args [] state) (line ps more)) ≡ args ++ word ps ∷ words more
split_line args state ps [] b h k =
    ap (λ t. result (split_from (at args [] state) t)) (sym (append-nil (typed ps)))
    ∙ ap result (split_argument args state ps [] b h)
    ∙ unfold split_from in result-basic args (word ps) h.1
split_line args state ps (l ∷ more) b h ((bl, bls, arg), k) =
    ap result (
      split_argument args state ps (l.blank ∷ (l.blanks ++ line l.pieces more)) b h
      ∙ split_end_arg args (word ps) (l.blanks ++ line l.pieces more) l.blank bl
      ∙ split_blanks (args ++ word ps ∷ []) l.blanks (line l.pieces more) bls)
    ∙ split_line (args ++ word ps ∷ []) whitespace l.pieces more tt arg k
    ∙ append_assoc args (word ps ∷ []) (words (l ∷ more))

-- However its non-empty arguments are written, in any mix of plain and escaped characters and single
-- and double quotations, and by whatever blanks they are separated, a command line that begins with an
-- argument is split into exactly those arguments.
pub split_command_line-line :
    (ps : List Piece) (more : List Later)
    → IsArgument ps
    → All IsLater more
    → split_command_line (line ps more) ≡ word ps ∷ words more
unfolding split_command_line
split_command_line-line ps more h k = split_line [] basic ps more tt h k

-- A command line that begins with a blank gets an empty first argument, in front of those of the
-- line behind its leading blanks.
pub split_command_line_blank :
    (c : ℕ) (bs : Text) (ps : List Piece) (more : List Later)
    → is_space c ≡ true
    → All (λ b. is_space b ≡ true) bs
    → IsArgument ps
    → All IsLater more
    → split_command_line (c ∷ (bs ++ line ps more)) ≡ [] ∷ word ps ∷ words more
unfolding split_command_line
split_command_line_blank c bs ps more h hs a k =
    ap result
      (split_end_arg [] [] (bs ++ line ps more) c h ∙ split_blanks ([] ∷ []) bs (line ps more) hs)
    ∙ split_line ([] ∷ []) whitespace ps more tt a k
