-- ===== src/Pexpect/Drain/Queue.antt =====
-- The queue between the reader thread and the expect loop.
use cush.Prelude.{
  ◌≡◌, refl, sym, ap, ◌∙◌, Bool, true, false, Option, none, some, List, [], ◌∷◌, ◌++◌, append_assoc,
  append-nil, if◌then◌else◌,
}
use cush.Prelude.Text.{Text}
use cush.Pexpect.Expect.{end_of_file, other_error, timed_out}
use cush.Pexpect.Expect.Account.{payload, received}
use cush.Pexpect.Drain.{
  PtyRead, halt, Shared, Tick, Turn, after_turns, get, leave, pass, pass_loop, raises, read_more,
  rounds, run, text, tick,
}

-- The data in a queue.
abbrev pub queue_data : List (Option Text) → Text
queue_data [] = []
queue_data (none ∷ q) = queue_data q
queue_data (some c ∷ q) = c ++ queue_data q

queue_data-append : (p q : List (Option Text)) → queue_data (p ++ q) ≡ queue_data p ++ queue_data q
queue_data-append [] q = refl
queue_data-append (none ∷ p) q = queue_data-append p q
queue_data-append (some c ∷ p) q =
    ap (λ t. c ++ t) (queue_data-append p q) ∙ sym (append_assoc c (queue_data p) (queue_data q))

abbrev pub pass_data : PtyRead → Text
pass_data (text c) = c
pass_data (raises e) = []

-- The data that the thread reads in these ticks.
abbrev pub tick_data : Shared → Tick → Text
tick_data s (pass r) = if s.running then (if s.keep_reading then pass_data r else []) else []
tick_data s _ = []

pub read_data : Shared → List Tick → Text
read_data s [] = []
read_data s (t ∷ ticks) = tick_data s t ++ read_data (tick s t) ticks

pass_loop-queue :
    (s : Shared) (r : PtyRead)
    → queue_data (pass_loop s r).read_queue ≡ queue_data s.read_queue ++ pass_data r
pass_loop-queue s (text c) =
    queue_data-append s.read_queue (some c ∷ [])
    ∙ ap (λ t. queue_data s.read_queue ++ t) (append-nil c)
pass_loop-queue s (raises end_of_file) = queue_data-append s.read_queue (none ∷ [])
pass_loop-queue s (raises timed_out) = sym (append-nil (queue_data s.read_queue))
pass_loop-queue s (raises other_error) = sym (append-nil (queue_data s.read_queue))

module _ (s : Shared) where
  nothing_new : queue_data s.read_queue ≡ queue_data s.read_queue ++ []
  nothing_new = sym (append-nil (queue_data s.read_queue))

  -- A step that is taken only if a flag is set.
  if-queue :
      (b : Bool) (x : Shared) (c : Text)
      → queue_data x.read_queue ≡ queue_data s.read_queue ++ c
      → queue_data (if b then x else s).read_queue
        ≡ queue_data s.read_queue ++ (if b then c else [])
  if-queue true x c h = h
  if-queue false x c h = nothing_new

  tick-queue :
      (t : Tick) → queue_data (tick s t).read_queue ≡ queue_data s.read_queue ++ tick_data s t
  unfolding tick
  tick-queue (pass r) =
      if-queue s.running (if s.keep_reading then pass_loop s r else s)
        (if s.keep_reading then pass_data r else [])
        (if-queue s.keep_reading (pass_loop s r) (pass_data r) (pass_loop-queue s r))
  tick-queue leave = unchanged s.running s.keep_reading
    where
      unchanged :
          (b c : Bool)
          → queue_data
              (if b
                then (if c then s else record s { running = false; drainpty = false })
                else s).read_queue
            ≡ queue_data s.read_queue ++ []
      unchanged false c = nothing_new
      unchanged true false = nothing_new
      unchanged true true = nothing_new
  tick-queue halt = nothing_new

run-queue :
    (s : Shared) (ticks : List Tick)
    → queue_data (run s ticks).read_queue ≡ queue_data s.read_queue ++ read_data s ticks
unfolding run read_data
run-queue s [] = sym (append-nil (queue_data s.read_queue))
run-queue s (t ∷ ticks) =
    run-queue (tick s t) ticks
    ∙ ap (λ q. q ++ read_data (tick s t) ticks) (tick-queue s t)
    ∙ append_assoc (queue_data s.read_queue) (tick_data s t) (read_data (tick s t) ticks)

-- The data that the thread reads during these turns.
pub thread_data : Shared → List Turn → Text
thread_data s [] = []
thread_data s (t ∷ turns) =
    read_data s t.ticks ++ thread_data (read_more (run s t.ticks) t.direct).1 turns

-- In each of these turns the read takes from the queue.
abbrev pub Draining : Shared → List Turn → Type 0
Draining s [] = Unit
Draining s (t ∷ turns) =
    ((run s t.ticks).drainpty ≡ true) × Draining (read_more (run s t.ticks) t.direct).1 turns

get-queue :
    (s : Shared) (q : List (Option Text))
    → s.read_queue ≡ q
    → payload (get s q).0 ++ queue_data (get s q).1.read_queue ≡ queue_data s.read_queue
get-queue s [] e = refl
get-queue s (none ∷ q) e = rw e
get-queue s (some c ∷ q) e = rw e

read_more-queue :
    (s : Shared) (direct : PtyRead)
    → s.drainpty ≡ true
    → payload (read_more s direct).0 ++ queue_data (read_more s direct).1.read_queue
      ≡ queue_data s.read_queue
unfolding read_more
read_more-queue s direct e = simp e (get-queue s s.read_queue refl)

-- As long as the reads take from the queue, whatever the interleaving, what the expect loop receives
-- followed by what is still queued is what was queued at first followed by what the thread has read:
-- the data arrives once, whole and in order.
pub rounds-queue :
    (s : Shared) (turns : List Turn)
    → Draining s turns
    → received (rounds s turns) ++ queue_data (after_turns s turns).read_queue
      ≡ queue_data s.read_queue ++ thread_data s turns
unfolding rounds after_turns thread_data
rounds-queue s [] d = sym (append-nil (queue_data s.read_queue))
rounds-queue s (t ∷ turns) (d, ds) =
    let u : Shared = run s t.ticks in
    let p : Text = payload (read_more u t.direct).0 in
    let s' : Shared = (read_more u t.direct).1 in
    let later : Text = thread_data s' turns in
    append_assoc p (received (rounds s' turns)) (queue_data (after_turns s' turns).read_queue)
    ∙ ap (λ x. p ++ x) (rounds-queue s' turns ds)
    ∙ sym (append_assoc p (queue_data s'.read_queue) later)
    ∙ ap (λ x. x ++ later) (read_more-queue u t.direct d ∙ run-queue s t.ticks)
    ∙ append_assoc (queue_data s.read_queue) (read_data s t.ticks) later

-- The ticks of a thread that reads these chunks, meets the end of the file and leaves.
abbrev pub finishing : List Text → List Tick
finishing [] = pass (raises end_of_file) ∷ leave ∷ []
finishing (c ∷ chunks) = pass (text c) ∷ finishing chunks

abbrev pub all_queued : List Text → List (Option Text)
all_queued [] = none ∷ []
all_queued (c ∷ chunks) = some c ∷ all_queued chunks

-- A thread that is in its loop.
abbrev pub reading : List (Option Text) → Shared
reading q = record { drainpty = true; running = true; keep_reading = true; read_queue = q }

pub run-finishing :
    (q : List (Option Text)) (chunks : List Text)
    → run (reading q) (finishing chunks) ≡ record {
      drainpty = false;
      running = false;
      keep_reading = false;
      read_queue = q ++ all_queued chunks;
    }
unfolding run
run-finishing q [] = refl
run-finishing q (c ∷ chunks) =
    run-finishing (q ++ some c ∷ []) chunks
    ∙ ap (λ r. record { drainpty = false; running = false; keep_reading = false; read_queue = r })
        (append_assoc q (some c ∷ []) (all_queued chunks))
