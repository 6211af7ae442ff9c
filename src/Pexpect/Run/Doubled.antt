-- ===== src/Pexpect/Run/Doubled.antt =====
-- What `run` returns where TIMEOUT is one of the events.
use mathlib.Core.Path.{subst}
use cush.Prelude.{
  ℕ, ◌≡◌, refl, sym, ap, ◌∙◌, Bool, true, false, none, some, List, [], ◌∷◌, ◌++◌, append-nil,
}
use cush.Prelude.Int.{ℤ, pos, ◌+ℤ◌, ◌-ℤ◌, is_negative}
use cush.Prelude.Text.{Text}
use cush.Pexpect.Searcher.{Item, add_items, init, timeout}
use cush.Pexpect.Expect.{
  Outcome, Round, Search, Spawn, chunk, default_timeout, end_of_file, expect_loop, failed, handle,
}
use cush.Pexpect.Expect.Story.{unread}
use cush.Pexpect.Pattern.{
  Patterns, Re, compile_pattern_list, compile_patterns, compiles, searcher_re, several,
  timeout_type,
}
use cush.Pexpect.Sending.{Sender, Terminal}
use cush.Pexpect.Run.{
  Ran, Response, Running, Stage, again, append_output, breaks, event_loop, glue, joined,
  joined_output, next_stage, output, pass, respond, run_events, start_run, take_event,
}
use cush.Pexpect.Run.Pass.{GoesAgain, IsQuiet, joined-append, pass-call, respond-GoesAgain}
use cush.Pexpect.Run.Waits.{call_eof, call_late, timeout-WaitsOnly, waited, with_timeout}

module _ {R W M : Type 0} (re : Re R M) (ignorecase : Bool) (terminal : Terminal W) (linesep : Text)
    (response : Response W M) (quiet : IsQuiet response) (n : ℕ) where
  abbrev keys : Patterns R
  keys = several (timeout_type ∷ [])

  abbrev items : List (Item R)
  items = timeout ∷ []

  compiles_keys : compile_pattern_list re ignorecase keys ≡ compiles items
  unfolding compile_pattern_list compile_patterns
  compiles_keys = refl

  abbrev passed : ℤ → Running W M → Stage × Running W M
  passed = pass re ignorecase terminal linesep keys (response ∷ [])

  abbrev searcher : Search M
  searcher = searcher_re re items

  abbrev take : Running W M → Outcome × Spawn M → Stage × Running W M
  take = take_event re ignorecase terminal linesep (response ∷ [])

  at_call :
      (now : ℤ) (r : Running W M) (child : Spawn M) (rounds : List Round)
      → r.child ≡ child
      → r.rounds ≡ rounds
      → passed now r
        ≡ take
            (record r { rounds = unread searcher child (some default_timeout) none now rounds })
            (expect_loop searcher child (some default_timeout) none now rounds)
  at_call now r child rounds c f =
      pass-call re ignorecase terminal linesep keys items compiles_keys (response ∷ []) now r
      ∙ ap
          (λ x.
            take (record r { rounds = unread searcher x (some default_timeout) none now r.rounds })
              (expect_loop searcher x (some default_timeout) none now r.rounds))
          c
      ∙ ap
          (λ x.
            take (record r { rounds = unread searcher child (some default_timeout) none now x })
              (expect_loop searcher child (some default_timeout) none now x))
          f

  -- A pass whose call of `expect` is out of time.
  late-GoesAgain :
      (r : Running W M) (child : Spawn M) (now late : ℤ) (d : Text) (rounds : List Round)
      → r.child ≡ with_timeout n child
      → r.rounds ≡ record { read = chunk d; now = late } ∷ rounds
      → is_negative ((now +ℤ pos n) -ℤ late) ≡ true
      → GoesAgain re ignorecase terminal linesep
          (append_output (some (child.buffer ++ d)) (record r {
            rounds = rounds;
            child = waited (with_timeout n child) (child.buffer ++ d);
          }))
          (passed now r)
  late-GoesAgain r child now late d rounds c f h =
      let self = with_timeout n child in
      let first = record { read = chunk d; now = late } ∷ rounds in
      let later =
        call_late (searcher_re re items) (timeout-WaitsOnly re) n child now late d rounds h in
      let base : Running W M =
        append_output (some (child.buffer ++ d)) (record r {
          rounds = rounds;
          child = waited (with_timeout n child) (child.buffer ++ d);
        }) in
      let step : passed now r ≡ respond re ignorecase terminal linesep (some response) base =
        at_call now r (with_timeout n child) first c f
        ∙ ap
            (λ u.
              take (record r { rounds = u })
                (expect_loop searcher self (some default_timeout) none now first))
            later.1
        ∙ ap (take (record r { rounds = rounds })) later.0 in
      subst (GoesAgain re ignorecase terminal linesep base) (sym step)
        (respond-GoesAgain re ignorecase terminal linesep response base quiet)

  -- The last pass.
  eof_breaks :
      (r : Running W M) (child : Spawn M) (now early t : ℤ) (e : Text)
      → r.child ≡ with_timeout n child
      → r.rounds
        ≡ record { read = chunk e; now = early }
          ∷ record { read = failed end_of_file; now = t }
          ∷ []
      → is_negative ((now +ℤ pos n) -ℤ early) ≡ false
      → ((passed now r).0 ≡ breaks)
        × (joined (passed now r).1.child_result_list
            ≡ glue (joined r.child_result_list) (some (child.buffer ++ e)))
  unfolding init add_items
  eof_breaks r child now early t e c f h =
      let self = with_timeout n child in
      let rounds =
        record { read = chunk e; now = early }
        ∷ record { read = failed end_of_file; now = t }
        ∷ [] in
      let first = record r {
        rounds = unread searcher self (some default_timeout) none now rounds;
      } in
      let step : passed now r ≡ take first (handle searcher self (child.buffer ++ e) end_of_file) =
        at_call now r self rounds c f
        ∙ ap (take first) (call_eof searcher (timeout-WaitsOnly re) n child now early t e h) in
      (
        ap (λ x. x.0) step,
        ap (λ x. joined x.1.child_result_list) step
            ∙ joined-append r.child_result_list (some (child.buffer ++ e)),
      )

  next_stages :
      (s s' : Stage × Running W M) (rest : Ran × Running W M)
      → s.0 ≡ again
      → s'.0 ≡ breaks
      → (next_stage re ignorecase terminal linesep s
          (next_stage re ignorecase terminal linesep s' rest)).0
        ≡ joined_output (joined s'.1.child_result_list)
  next_stages (a, r) (b, r') rest p q =
      ap
        (λ x.
          (next_stage re ignorecase terminal linesep (x, r)
            (next_stage re ignorecase terminal linesep (b, r') rest)).0)
        p
      ∙ ap (λ x. (next_stage re ignorecase terminal linesep (x, r') rest).0) q

  -- With TIMEOUT as the only event, answered by a text or by a callback that leaves the child and the
  -- output alone and lets the run go on: if the first call of `expect` reads some data and runs out of
  -- time, and the second reads more in time and meets the end of the file, then the output holds what was
  -- in the buffer and the first data twice.
  pub run_events-doubled :
      (child : Spawn M) (sender : Sender) (world : W) (d e : Text) (now late again_now early t : ℤ)
      → is_negative ((now +ℤ pos n) -ℤ late) ≡ true
      → is_negative ((again_now +ℤ pos n) -ℤ early) ≡ false
      → (run_events re ignorecase terminal linesep
          (some ((timeout_type, response) ∷ []))
          (now ∷ again_now ∷ [])
          (start_run (with_timeout n child) sender world (
            record { read = chunk d; now = late }
            ∷ record { read = chunk e; now = early }
            ∷ record { read = failed end_of_file; now = t }
            ∷ []))).0
        ≡ output ((child.buffer ++ d) ++ ((child.buffer ++ d) ++ e))
  unfolding run_events event_loop
  run_events-doubled child sender world d e now late again_now early t h k =
      let later =
        record { read = chunk e; now = early }
        ∷ record { read = failed end_of_file; now = t }
        ∷ [] in
      let r : Running W M =
        start_run (with_timeout n child) sender world
          (record { read = chunk d; now = late } ∷ later) in
      let (a, (c, (f, l))) = late-GoesAgain r child now late d later refl refl h in
      let s : Running W M = (passed now r).1 in
      let (b, o) = eof_breaks s (waited child (child.buffer ++ d)) again_now early t e c f k in
      next_stages (passed now r) (passed again_now s)
        (event_loop re ignorecase terminal linesep keys (response ∷ []) [] (passed again_now s).1) a
        b
      ∙ ap joined_output o
      ∙ ap (λ x. joined_output (glue (joined x) (some ((child.buffer ++ d) ++ e)))) l
      ∙ ap (λ x. output (x ++ ((child.buffer ++ d) ++ e))) (append-nil (child.buffer ++ d))
