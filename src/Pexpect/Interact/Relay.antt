-- ===== src/Pexpect/Interact/Relay.antt =====
-- What `interact` passes on between the user and the child.
use mathlib.Core.Path.{subst}
use cush.Prelude.{
  ℕ, ◌≤◌, ◌≡◌, ◌⊎◌, refl, sym, ap, ◌∙◌, inl, inr, Bool, true, false, Option, none, some, List, [],
  ◌∷◌, ◌++◌, arith, All, length, take, append-nil, length-take, take_all, ◌≢◌,
}
use cush.Prelude.Text.{Text}
use cush.Pexpect.Sending.{write_log}
use cush.Pexpect.Interact.{
  Attempt, Console, CopyEnding, Input, Life, CopyPass, Course, alive, child_gone, ended, ends,
  escape_typed, filtered, finish_write, gives, going, idle, interact, interact_copy, life_raises,
  live, next_pass, follow_course, raises, read_raises, restore, rfind, send_input, show, take_both,
  take_input, then_input,
}
use cush.Pexpect.Interact.Written.{
  IsTaken, interact_writen-finished, relayed, relayed-append, relayed-nil, stage_of, write_log-nil,
}

-- The text up to this place, or the whole.
abbrev pub up_to : Option ℕ → Text → Text
up_to none s = s
up_to (some i) s = take i s

abbrev pub is_found : Option ℕ → Bool
is_found none = false
is_found (some i) = true

module _ (escape_character : Text) (input_filter output_filter : Option (Text → Text)) where
  -- What a read from the child shows the user, and what a read from the user gives the child.
  abbrev pub shown_of : Input → Text
  shown_of (gives s) = filtered output_filter s
  shown_of _ = []

  abbrev pub typed_of : Input → Text
  typed_of (gives s) =
      up_to (rfind escape_character (filtered input_filter s)) (filtered input_filter s)
  typed_of _ = []

  abbrev pub has_escape : Input → Bool
  has_escape (gives s) = is_found (rfind escape_character (filtered input_filter s))
  has_escape _ = false

  abbrev pub used_from : Life → Bool → CopyPass → List CopyPass → List CopyPass
  used_from alive true p rest = p ∷ []
  used_from alive false p rest = p ∷ rest
  used_from ended b p rest = []
  used_from life_raises b p rest = []

  -- The passes up to the first with the escape character, as long as the child lives.
  unfoldable pub used_passes : List CopyPass → List CopyPass
  used_passes [] = []
  used_passes (p ∷ passes) = used_from p.life (has_escape p.input) p (used_passes passes)

  abbrev pub ending_from : Life → Bool → CopyEnding → CopyEnding
  ending_from alive true rest = escape_typed
  ending_from alive false rest = rest
  ending_from ended b rest = child_gone
  ending_from life_raises b rest = raises

  -- How the loop is to end.
  unfoldable pub ending : List CopyPass → CopyEnding
  ending [] = going
  ending (p ∷ passes) = ending_from p.life (has_escape p.input) (ending passes)

  abbrev pub shown : List CopyPass → Text
  shown [] = []
  shown (p ∷ passes) = shown_of p.output ++ shown passes

  abbrev pub typed : List CopyPass → Text
  typed [] = []
  typed (p ∷ passes) = typed_of p.input ++ typed passes

  -- A pass without an exception in which the terminals take all that is written.
  abbrev pub Shows : Input → Option ℕ → Type 0
  Shows (gives s) displayed =
      (n : ℕ) × ((displayed ≡ some n) × (length (filtered output_filter s) ≤ n))
  Shows idle displayed = Unit
  Shows read_raises displayed = ⊥

  abbrev pub Takes : Input → List Attempt → Type 0
  Takes (gives s) attempts =
      All IsTaken attempts × (length (filtered input_filter s) ≤ length attempts)
  Takes idle attempts = Unit
  Takes read_raises attempts = ⊥

  abbrev pub IsSmooth : CopyPass → Type 0
  IsSmooth p = (life_raises ≢ p.life) × (Shows p.output p.displayed × Takes p.input p.attempts)

  module _ {Mode : Type 0} where
    send_input-Takes :
        (s : Text) (o : Option ℕ) (attempts : List Attempt) (c : Console Mode)
        → All IsTaken attempts
        → length s ≤ length attempts
        → send_input escape_character input_filter output_filter s o attempts c
          ≡ (stage_of (is_found o), record c { sent = c.sent ++ up_to o s })
    send_input-Takes s none attempts c h l =
        ap (λ w. finish_write escape_character input_filter output_filter next_pass w c)
          (interact_writen-finished s attempts h l)
    send_input-Takes s (some i) attempts c h l =
        ap (λ w. finish_write escape_character input_filter output_filter (ends escape_typed) w c)
          (interact_writen-finished (take i s) attempts h (omega (arith, length-take i s, l)))

    take_input-Takes :
        (i : Input) (attempts : List Attempt) (c : Console Mode)
        → Takes i attempts
        → take_input escape_character input_filter output_filter i attempts c
          ≡ (stage_of (has_escape i), record c { sent = c.sent ++ typed_of i })
    take_input-Takes idle attempts c h = rw (append-nil c.sent) refl
    take_input-Takes read_raises attempts c h = absurd h
    take_input-Takes (gives s) attempts c (h, l) =
        send_input-Takes (filtered input_filter s) _ attempts c h l

    live-IsSmooth :
        (p : CopyPass) (o : Input) (c : Console Mode)
        → Shows o p.displayed
        → Takes p.input p.attempts
        → take_both escape_character input_filter output_filter p o c
          ≡ (stage_of (has_escape p.input), relayed c (shown_of o) (typed_of p.input))
    live-IsSmooth p idle c h k =
        take_input-Takes p.input p.attempts c k
        ∙ ap (λ x. (stage_of (has_escape p.input), x))
            (rw (append-nil c.stdout) (rw (write_log-nil c.logfile) refl))
    live-IsSmooth p read_raises c h k = absurd h
    live-IsSmooth p (gives s) c (n, (e, l)) k =
        ap
          (λ d.
            then_input escape_character input_filter output_filter p
              (show escape_character input_filter output_filter d (filtered output_filter s) c))
          e
        ∙ take_input-Takes p.input p.attempts _ k
        ∙ ap
            (λ t. (
              stage_of (has_escape p.input),
              record c {
                stdout = c.stdout ++ t;
                logfile = write_log (filtered output_filter s) c.logfile;
                sent = c.sent ++ typed_of p.input;
              },
            ))
            (take_all n (filtered output_filter s) l)

    -- What the loop leaves.
    abbrev relay : List CopyPass → Console Mode → CopyEnding × Console Mode
    relay passes c =
        (ending passes, relayed c (shown (used_passes passes)) (typed (used_passes passes)))

    interact_copy-relay :
        (passes : List CopyPass) (c : Console Mode)
        → All IsSmooth passes
        → interact_copy escape_character input_filter output_filter passes c ≡ relay passes c
    unfolding interact_copy ending used_passes
    interact_copy-relay [] c h = ap (λ x. (going, x)) (sym (relayed-nil c))
    interact_copy-relay (p ∷ passes) c ((l, (o, i)), rest) =
        by_life p.life (has_escape p.input) l refl
          (interact_copy-relay passes (relayed c (shown_of p.output) (typed_of p.input)) rest)
      where
        copied : Course × Console Mode → CopyEnding × Console Mode
        copied x =
            follow_course escape_character input_filter output_filter x
              (interact_copy escape_character input_filter output_filter passes x.1)

        a : Text
        a = shown_of p.output

        b : Text
        b = typed_of p.input

        by_life :
            (life : Life) (found : Bool)
            → (life_raises ≢ life)
            → has_escape p.input ≡ found
            → interact_copy escape_character input_filter output_filter passes (relayed c a b)
              ≡ relay passes (relayed c a b)
            → copied (live escape_character input_filter output_filter life p c) ≡ (
              ending_from life found (ending passes),
              relayed c
                  (shown (used_from life found p (used_passes passes)))
                  (typed (used_from life found p (used_passes passes))),
            )
        by_life life_raises found n e k = absurd (n refl)
        by_life ended found n e k = ap (λ x. (child_gone, x)) (sym (relayed-nil c))
        by_life alive true n e k =
            ap copied (live-IsSmooth p p.output c o i)
            ∙ ap (λ x. copied (stage_of x, relayed c a b)) e
            ∙ rw (append-nil a) (rw (append-nil b) refl)
        by_life alive false n e k =
            ap copied (live-IsSmooth p p.output c o i)
            ∙ ap (λ x. copied (stage_of x, relayed c a b)) e
            ∙ k
            ∙ ap (λ x. (ending passes, x))
                (relayed-append c a b (shown (used_passes passes)) (typed (used_passes passes)))

    -- What a call of `interact` leaves: how it ends, what was written, the buffer and the mode.
    abbrev pub IsRelayed :
        Console Mode → List CopyPass → CopyEnding → CopyEnding × Console Mode → Type 0
    IsRelayed c used end (e, last) =
        (e ≡ end)
        × ((last.stdout ≡ (c.stdout ++ c.buffer) ++ shown used)
            × ((last.logfile ≡ write_log (shown used) c.logfile)
                × ((last.sent ≡ c.sent ++ typed used)
                    × ((last.buffer ≡ []) × ((e ≡ going) ⊎ (last.mode ≡ c.mode))))))

    restore-IsRelayed :
        (c : Console Mode) (mode : Mode) (used : List CopyPass) (end : CopyEnding)
        → IsRelayed c used end (
            restore escape_character input_filter output_filter c.mode (
              end,
              relayed
                  (record c { stdout = c.stdout ++ c.buffer; buffer = []; mode = mode })
                  (shown used)
                  (typed used),
            ))
    restore-IsRelayed c mode used going = (refl, (refl, (refl, (refl, (refl, inl refl)))))
    restore-IsRelayed c mode used escape_typed = (refl, (refl, (refl, (refl, (refl, inr refl)))))
    restore-IsRelayed c mode used child_gone = (refl, (refl, (refl, (refl, (refl, inr refl)))))
    restore-IsRelayed c mode used raises = (refl, (refl, (refl, (refl, (refl, inr refl)))))

    -- If no pass raises and the terminals take all that is written, a few bytes at a time or more: the user
    -- gets what was in the buffer and, filtered, all that the child wrote up to the pass with the escape
    -- character; the log gets the latter; the child gets the user's filtered input, of each read no more
    -- than what stands in front of the last escape character, if there is one; and the buffer is empty.
    -- `interact` ends by the first read with an escape character, if the child lives so long, and then, as at
    -- the end of the child, the user's terminal has its mode again.
    pub interact-IsRelayed :
        (setraw : Mode → Mode) (passes : List CopyPass) (c : Console Mode)
        → All IsSmooth passes
        → IsRelayed c
            (used_passes passes)
            (ending passes)
            (interact escape_character input_filter output_filter setraw passes c)
    unfolding interact
    interact-IsRelayed setraw passes c h =
        subst
          (λ r.
            IsRelayed c (used_passes passes) (ending passes)
              (restore escape_character input_filter output_filter c.mode r))
          (sym (interact_copy-relay passes _ h))
          (restore-IsRelayed c (setraw c.mode) (used_passes passes) (ending passes))
