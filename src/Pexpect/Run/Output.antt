-- ===== src/Pexpect/Run/Output.antt =====
-- What `run` returns for a child that writes some data and then closes its terminal.
use mathlib.Core.Path.{subst}
use cush.Prelude.{
  ℕ, suc, ◌-◌, ◌≤◌, ◌<◌, ◌≡◌, refl, sym, ap, ◌∙◌, inl, inr, Bool, Option, none, some, List, [], ◌∷◌,
  ◌++◌, arith, All, length, take, drop, length-append, append_assoc, map, length-take, length-drop,
}
use cush.Prelude.Int.{ℤ}
use cush.Prelude.Text.{Text}
use cush.Pexpect.Searcher.{Hit, Item, init}
use cush.Pexpect.Expect.{
  report, type_eof, Outcome, Round, Search, Spawn, default_window, end_of_file, resolve, succeed,
}
use cush.Pexpect.Expect.Account.{slices}
use cush.Pexpect.Expect.Feed.{IsEnd, IsHit, feed, feed_data}
use cush.Pexpect.Pattern.{
  Pattern, Patterns, Re, compile_pattern_list, compiles, search_re, search_start, searcher_re,
}
use cush.Pexpect.Pattern.Earliest.{EarliestMatch, MatchesWithin}
use cush.Pexpect.Pattern.Found.{search_re-EarliestMatch, searcher_re-IsWithin}
use cush.Pexpect.Sending.{Sender, Terminal}
use cush.Pexpect.Run.{
  Response, Running, Stage, append_output, event_loop, event_patterns, event_responses, glue,
  joined, joined_output, output, pass, respond, run_events, start_run, take_event,
}
use cush.Pexpect.Run.Pass.{
  GoesAgain, InRange, InRange-append, IsQuiet, NeverEmpty, NeverEmpty-append, call, call-IsFed,
  compile_pattern_list-length, element-All, init-InRange, joined-append, left, pass-call,
  respond-GoesAgain, glue_assoc,
}
use cush.Pexpect.Run.Step.{IsLast, IsMore, next_stage_again, next_stage_breaks}

module _ {R W M : Type 0} (re : Re R M) (ignorecase : Bool) (terminal : Terminal W)
    (linesep : Text) where
  module _ (spans : MatchesWithin re) (keys : Patterns R) (items : List (Item R))
      (compiles_keys : compile_pattern_list re ignorecase keys ≡ compiles items)
      (responses : List (Response W M)) (quiet : All IsQuiet responses)
      (fits : length items ≡ length responses) (no_eof : (init items).eof_index ≡ none)
      (solid : NeverEmpty re (init items).searches) where
    abbrev searcher : Search M
    searcher = searcher_re re items

    abbrev called : ℤ → Running W M → Outcome × Spawn M
    called = call re ignorecase terminal linesep keys items compiles_keys

    abbrev unused : ℤ → Running W M → List Round
    unused = left re ignorecase terminal linesep keys items compiles_keys

    -- The hit of a search stands for a response, and it is not empty.
    hit_solid :
        (b : Text) (freshlen : ℕ) (window : Option ℤ) (h : Hit M)
        → search_re re (init items).searches b freshlen window ≡ some h
        → (h.index < length responses) × ((h.start < h.end) × (h.end ≤ length b))
    hit_solid b freshlen window h e =
        let (a, (s, t)) =
          subst (EarliestMatch re b (search_start (length b) window) (init items).searches) e
            (search_re-EarliestMatch re (init items).searches b freshlen window) in
        let split : NeverEmpty re (a.earlier ++ (h.index, a.regex) ∷ a.later) =
          subst (NeverEmpty re) a.splits solid in
        let full : re.start h.match < re.end h.match =
          NeverEmpty-append re a.earlier (h.index, a.regex) a.later split b _ h.match a.found in
        let below : h.index < length items =
          InRange-append (length items) a.earlier h.index a.regex a.later
            (subst (InRange (length items)) a.splits (init-InRange items)) in
        let within : h.end ≤ length b =
          ((searcher_re-IsWithin re items spans).hit_within b freshlen window h e).1 in
        (omega (arith, below, fits), (omega (arith, s, t, full), within))

    answered-IsMore :
        (now : ℤ) (r : Running W M) (all : Text) (ends : List ℤ)
        (i : IsHit searcher
          (resolve default_window r.child.searchwindowsize none)
          r.child
          all
          ends
          (unused now r)
          (called now r))
        (result : Stage × Running W M)
        → GoesAgain re ignorecase terminal linesep
            (append_output
              (some (
                take i.hit.start i.incoming
                ++ take (i.hit.end - i.hit.start) (drop i.hit.start i.incoming)))
              (record r { rounds = unused now r; child = (succeed r.child i.incoming i.hit).1 }))
            result
        → IsMore r all ends result
    answered-IsMore now r all ends i (stage, s) (e, (c, (f, l))) =
        let h = i.hit in
        let b : Text = take h.start i.incoming in
        let a : Text = take (h.end - h.start) (drop h.start i.incoming) in
        let (known, (full, within)) =
          hit_solid i.incoming i.freshlen (resolve default_window r.child.searchwindowsize none) h
            i.found in
        record {
          taken = b ++ a;
          chunks = i.chunks;
          stage = e;
          timeout = ap (λ x. x.timeout) c;
          rounds = f ∙ i.left;
          printed = ap joined l ∙ joined-append r.child_result_list (some (b ++ a));
          divides =
              ap (λ x. (b ++ a) ++ (x.buffer ++ feed_data i.chunks)) c
              ∙ sym (append_assoc (b ++ a) (drop h.end i.incoming) (feed_data i.chunks))
              ∙ ap (λ x. x ++ feed_data i.chunks)
                  (append_assoc b a (drop h.end i.incoming)
                    ∙ slices i.incoming h.start h.end (omega (arith, full)))
              ∙ i.divides;
          grows = omega (
            arith,
            length-append b a,
            length-take (h.end - h.start) (drop h.start i.incoming),
            length-drop h.start i.incoming,
            full,
            within,
          );
        }

    abbrev passed : ℤ → Running W M → Stage × Running W M
    passed = pass re ignorecase terminal linesep keys responses

    hit-IsMore :
        (now : ℤ) (r : Running W M) (all : Text) (ends : List ℤ)
        → IsHit searcher
            (resolve default_window r.child.searchwindowsize none)
            r.child
            all
            ends
            (unused now r)
            (called now r)
        → IsMore r all ends (passed now r)
    hit-IsMore now r all ends i =
        let b : Text = take i.hit.start i.incoming in
        let a : Text = take (i.hit.end - i.hit.start) (drop i.hit.start i.incoming) in
        let base : Running W M =
          append_output (some (b ++ a))
            (record r { rounds = unused now r; child = (succeed r.child i.incoming i.hit).1 }) in
        let (known, rest) =
          hit_solid i.incoming i.freshlen (resolve default_window r.child.searchwindowsize none)
            i.hit i.found in
        let (response, (at, q)) = element-All i.hit.index responses quiet known in
        let step : passed now r ≡ respond re ignorecase terminal linesep (some response) base =
          pass-call re ignorecase terminal linesep keys items compiles_keys responses now r
          ∙ ap
              (take_event re ignorecase terminal linesep responses
                (record r { rounds = unused now r }))
              i.outcome
          ∙ ap (λ o. respond re ignorecase terminal linesep o base) at in
        subst (IsMore r all ends) (sym step) (
          answered-IsMore now r all ends i
            (respond re ignorecase terminal linesep (some response) base)
            (respond-GoesAgain re ignorecase terminal linesep response base q))

    end-IsLast :
        (now : ℤ) (r : Running W M) (all : Text) (ends : List ℤ)
        → IsEnd searcher
            (resolve default_window r.child.searchwindowsize none)
            r.child
            all
            ends
            (unused now r)
            (called now r)
        → IsLast r all (passed now r)
    end-IsLast now r all ends i =
        let first = record r { rounds = unused now r } in
        let step : passed now r
            ≡ take_event re ignorecase terminal linesep responses first (
                report (record r.child { buffer = []; before = some all; after = type_eof })
                  end_of_file type_eof none) =
          pass-call re ignorecase terminal linesep keys items compiles_keys responses now r
          ∙ ap (take_event re ignorecase terminal linesep responses first) i.outcome
          ∙ ap
              (λ o. take_event re ignorecase terminal linesep responses first (
                report (record r.child { buffer = []; before = some all; after = type_eof })
                  end_of_file type_eof o))
              no_eof in
        subst (IsLast r all) (sym step)
          (record { stage = refl; printed = joined-append r.child_result_list (some all) })

    -- The loop ends, whatever it has put into its output so far.
    event_loop_ends :
        (starts : List ℤ) (r : Running W M) (chunks : List (Option Text × ℤ)) (t : ℤ)
        (ends : List ℤ)
        → r.child.timeout ≡ none
        → r.rounds ≡ feed chunks (t ∷ ends)
        → length (r.child.buffer ++ feed_data chunks) < length starts
        → (event_loop re ignorecase terminal linesep keys responses starts r).0
          ≡ joined_output
              (glue (joined r.child_result_list) (some (r.child.buffer ++ feed_data chunks)))
    unfolding event_loop
    event_loop_ends [] r chunks t ends h f l = absurd (omega arith)
    event_loop_ends (now ∷ starts) r chunks t ends h f l =
        elim (call-IsFed re ignorecase terminal linesep keys items compiles_keys now r chunks t ends
          h f) [
            | inl i ↦
                let more = hit-IsMore now r (r.child.buffer ++ feed_data chunks) (t ∷ ends) i in
                let s : Running W M = (passed now r).1 in
                let fewer : length (s.child.buffer ++ feed_data more.chunks) < length starts =
                  omega (
                    arith,
                    length-append more.taken (s.child.buffer ++ feed_data more.chunks),
                    ap length more.divides,
                    more.grows,
                    l,
                  ) in
                ap (λ x. x.0)
                  (next_stage_again re ignorecase terminal linesep (passed now r)
                    (event_loop re ignorecase terminal linesep keys responses starts s) more.stage)
                ∙ event_loop_ends starts s more.chunks t ends (more.timeout ∙ h) more.rounds fewer
                ∙ ap (λ o. joined_output (glue o (some (s.child.buffer ++ feed_data more.chunks))))
                    more.printed
                ∙ ap joined_output (
                    glue_assoc (joined r.child_result_list) (some more.taken)
                      (some (s.child.buffer ++ feed_data more.chunks)))
                ∙ ap (λ x. joined_output (glue (joined r.child_result_list) (some x))) more.divides
            | inr i ↦
                let last = end-IsLast now r (r.child.buffer ++ feed_data chunks) (t ∷ ends) i in
                let s : Running W M = (passed now r).1 in
                next_stage_breaks re ignorecase terminal linesep (passed now r)
                  (event_loop re ignorecase terminal linesep keys responses starts s) last.stage
                ∙ ap joined_output last.printed
          ]

  -- For a child without a timeout that writes data in any chunks and then closes its terminal: if the
  -- patterns of the events compile, none is EOF and none matches an empty text, and every response is
  -- a text or a callback that leaves the child and the output alone and lets the run go on, then the
  -- loop ends, and its output is what was in the buffer followed by that data. One call of `expect`
  -- more than there are characters is enough.
  pub run_events-output :
      (spans : MatchesWithin re) (events : List (Pattern R × Response W M)) (items : List (Item R))
      (starts : List ℤ) (child : Spawn M) (sender : Sender) (world : W)
      (chunks : List (Option Text × ℤ)) (t : ℤ) (ends : List ℤ)
      → compile_pattern_list re ignorecase
          (event_patterns re ignorecase terminal linesep (some events))
        ≡ compiles items
      → All IsQuiet (event_responses re ignorecase terminal linesep (some events))
      → (init items).eof_index ≡ none
      → NeverEmpty re (init items).searches
      → child.timeout ≡ none
      → length (child.buffer ++ feed_data chunks) < length starts
      → (run_events re ignorecase terminal linesep
          (some events)
          starts
          (start_run child sender world (feed chunks (t ∷ ends)))).0
        ≡ output (child.buffer ++ feed_data chunks)
  unfolding run_events
  run_events-output spans events items starts child sender world chunks t ends c q n v h l =
      event_loop_ends spans (event_patterns re ignorecase terminal linesep (some events)) items c
        (event_responses re ignorecase terminal linesep (some events)) q
        (compile_pattern_list-length re ignorecase (map (λ e. e.0) events) items c
          ∙ same_length events)
        n v starts (start_run child sender world (feed chunks (t ∷ ends))) chunks t ends h refl l
    where
      same_length :
          (es : List (Pattern R × Response W M))
          → length (map (λ e. e.0) es) ≡ length (map (λ e. e.1) es)
      same_length [] = refl
      same_length (e ∷ es) = ap suc (same_length es)
