-- ===== src/Pexpect/Expect/Sought.antt =====
-- A call of `expect_loop` that looks for one text, for a child that writes some data and closes its
-- terminal.
use mathlib.Core.Path.{subst}
use cush.Prelude.{
  ℕ, ◌+◌, ◌-◌, ◌≤◌, ◌<◌, ◌≡◌, ◌≢◌, ◌⊎◌, refl, sym, ap, ◌∙◌, inl, inr, Bool, true, false, Option,
  none, some, List, [], ◌∷◌, ◌++◌, arith, append_assoc, append-nil, length, take, drop, length-take,
  length-drop,
}
use cush.Prelude.Int.{ℤ}
use cush.Prelude.Text.{Text, contains, starts_with}
use cush.Pexpect.Searcher.{Hit}
use cush.Pexpect.Searcher.Find.{NoneBefore, Occurs}
use cush.Pexpect.Searcher.Window.{old_data}
use cush.Pexpect.Searcher.Within.{starts_with-length}
use cush.Pexpect.Expect.{
  Exception, Outcome, Round, Search, Spawn, attempt, chunk, closed, deadline, default_timeout,
  default_window, end_of_file, expect_loop, expired, failed, fresh, grow, handle, loop, proceed,
  raised, remaining, resolve, returned, settle, succeed, timed_out,
}
use cush.Pexpect.Expect.Account.{slices}
use cush.Pexpect.Expect.Exact.{
  contains_empty, contains_none, old_data-append, old_data-length, take-starts_with,
}
use cush.Pexpect.Expect.Feed.{data_read, ends_feed, feed, feed_data}
use cush.Pexpect.Expect.Story.{leave, loop_unread, unread}

-- The text stands nowhere in the other.
abbrev pub Absent : Text → Text → Type 0
Absent t b = (n : ℕ) → starts_with t (drop n b) ≡ false

-- What a search for one text finds: the first place, or that there is none.
abbrev pub FirstPlace : {N : Type 0} → Text → Text → Option (Hit N) → Type 0
FirstPlace t b none = Absent t b
FirstPlace t b (some h) =
    (h.index ≡ 0) × (h.end ≡ h.start + length t) × Occurs t b h.start × NoneBefore t b h.start

-- A searcher for one text, which need not look again at what was searched before.
pub record Seeks {N : Type 0} (searcher : Search N) (t : Text) : Type 0 where
  pub first :
      (b : Text) (freshlen : ℕ)
      → contains t (old_data b freshlen) ≡ false
      → FirstPlace t b (searcher.search b freshlen none)
  pub no_eof : searcher.eof_index ≡ none
  pub no_timeout : searcher.timeout_index ≡ none
  pub not_empty : t ≢ []

pub length_pos : (t : Text) → t ≢ [] → 0 < length t
length_pos [] n = absurd (n refl)
length_pos (c ∷ t) n = omega arith

module _ {N : Type 0} (t : Text) (self : Spawn N) (end_time : Option ℤ) where
  -- The text is found: what stood before it, and what stands behind it in the buffer and is still to come.
  pub record IsMet (all : Text) (ends : List ℤ) (unread : List Round) (result : Outcome × Spawn N)
      : Type 0 where
    pub before : Text
    pub chunks : List (Option Text × ℤ)
    pub returns : result.0 ≡ returned 0
    pub timeout : result.1.timeout ≡ self.timeout
    pub window : result.1.searchwindowsize ≡ self.searchwindowsize
    pub left : unread ≡ feed chunks ends
    pub first : NoneBefore t (before ++ (t ++ result.1.buffer)) (length before)
    pub divides : before ++ (t ++ (result.1.buffer ++ feed_data chunks)) ≡ all

  -- How a call ends: with the text, at the end of the data without it, or out of time.
  abbrev pub Missed : Text → Outcome × Spawn N → Type 0
  Missed all result =
      ((result.0 ≡ raised end_of_file) × Absent t all)
      ⊎ ((result.0 ≡ raised timed_out) × (end_time ≢ none))

  abbrev pub Sought : Text → List ℤ → List Round → Outcome × Spawn N → Type 0
  Sought all ends unread result = IsMet all ends unread result ⊎ Missed all result

module _ {N : Type 0} (searcher : Search N) (t : Text) (seeks : Seeks searcher t) (self : Spawn N)
    (end_time : Option ℤ) where
  hit-IsMet :
      (incoming : Text) (chunks : List (Option Text × ℤ)) (ends : List ℤ) (h : Hit N)
      → FirstPlace t incoming (some h)
      → IsMet t self end_time
          (incoming ++ feed_data chunks)
          ends
          (feed chunks ends)
          (succeed self incoming h)
  hit-IsMet incoming chunks ends h (i, e, occ, non) =
      let b : Text = take h.start incoming in
      let rest : Text = drop h.end incoming in
      let width : h.end - h.start ≡ length t = omega arith in
      let fits : length t ≤ length (drop h.start incoming) =
        starts_with-length t (drop h.start incoming) occ in
      let middle : take (h.end - h.start) (drop h.start incoming) ≡ t =
        ap (λ n. take n (drop h.start incoming)) width
        ∙ take-starts_with t (drop h.start incoming) occ in
      let whole : b ++ (t ++ rest) ≡ incoming =
        ap (λ m. b ++ (m ++ rest)) (sym middle) ∙ slices incoming h.start h.end (omega arith) in
      let at : length b ≡ h.start = omega (
        arith,
        length-take h.start incoming,
        length-drop h.start incoming,
        fits,
        length_pos t seeks.not_empty,
      ) in
      record {
        before = b;
        chunks = chunks;
        returns = ap returned i;
        timeout = refl;
        window = refl;
        left = refl;
        first =
            subst (λ u. NoneBefore t u (length b)) (sym whole)
              (subst (NoneBefore t incoming) (sym at) non);
        divides =
            ap (λ u. b ++ u) (sym (append_assoc t rest (feed_data chunks)))
            ∙ sym (append_assoc b (t ++ rest) (feed_data chunks))
            ∙ ap (λ u. u ++ feed_data chunks) whole;
      }

  late-Missed :
      (all incoming : Text)
      → end_time ≢ none
      → Missed t self end_time all (handle searcher self incoming timed_out)
  late-Missed all incoming h = rw seeks.no_timeout (inr (refl, h))

  end-Missed :
      (incoming : Text)
      → Absent t incoming
      → Missed t self end_time (incoming ++ []) (handle searcher self incoming end_of_file)
  end-Missed incoming h =
      rw seeks.no_eof (inl (refl, subst (Absent t) (sym (append-nil incoming)) h))

  expired-some :
      (timeout : Option ℤ)
      → (end_time ≡ none → timeout ≡ none)
      → expired timeout ≡ true
      → end_time ≢ none
  expired-some none h e n = absurd cc
  expired-some (some x) h e n = let k : some x ≡ none = h n in cc

  -- A round, from what its search finds and whether the time is over.
  proceed-Sought :
      (incoming : Text) (timeout : Option ℤ) (chunks : List (Option Text × ℤ)) (ends : List ℤ)
      (r : Round) (rounds left : List Round) (e : Option Exception) (rest : Outcome × Spawn N)
      (found : Option (Hit N)) (over : Bool)
      → (end_time ≡ none → timeout ≡ none)
      → r ∷ rounds ≡ feed chunks ends
      → FirstPlace t incoming found
      → expired timeout ≡ over
      → (Absent t incoming
          → Sought t self end_time
              (incoming ++ feed_data chunks)
              ends
              (leave {M = N} none e r rounds left)
              (proceed searcher self incoming none e rest))
      → Sought t self end_time
          (incoming ++ feed_data chunks)
          ends
          (leave (settle searcher self incoming found over) e r rounds left)
          (proceed searcher self incoming (settle searcher self incoming found over) e rest)
  proceed-Sought incoming timeout chunks ends r rounds left e rest (some h) over d f p q k = inl (
      subst
        (λ u. IsMet t self end_time (incoming ++ feed_data chunks) ends u (succeed self incoming h))
        (sym f) (hit-IsMet incoming chunks ends h p))
  proceed-Sought incoming timeout chunks ends r rounds left e rest none true d f p q k =
      inr (late-Missed _ incoming (expired-some timeout d q))
  proceed-Sought incoming timeout chunks ends r rounds left e rest none false d f p q k = k p

  -- What is old at the next search does not hold the text.
  grow-contains :
      (incoming : Text) (freshlen : ℕ) (o : Option Text)
      → contains t (old_data incoming freshlen) ≡ false
      → Absent t incoming
      → contains t (old_data (grow incoming (data_read o)) (fresh freshlen (data_read o))) ≡ false
  grow-contains incoming freshlen none h a = h
  grow-contains incoming freshlen (some c) h a =
      rw (old_data-append incoming c) (contains_none t incoming seeks.not_empty (λ n l. a n))

  grow_data :
      (incoming : Text) (o : Option Text) (u : ℤ) (chunks : List (Option Text × ℤ))
      → grow incoming (data_read o) ++ feed_data chunks ≡ incoming ++ feed_data ((o, u) ∷ chunks)
  grow_data incoming none u chunks = refl
  grow_data incoming (some c) u chunks = append_assoc incoming c (feed_data chunks)

  remaining-none : (now : ℤ) → end_time ≡ none → remaining end_time now ≡ none
  remaining-none now h = rw h refl

  loop-Sought :
      (incoming : Text) (freshlen : ℕ) (timeout : Option ℤ) (chunks : List (Option Text × ℤ))
      (c : ℤ) (ends : List ℤ)
      → (end_time ≡ none → timeout ≡ none)
      → contains t (old_data incoming freshlen) ≡ false
      → Sought t self end_time
          (incoming ++ feed_data chunks)
          (c ∷ ends)
          (loop_unread searcher none end_time self incoming freshlen timeout
            (feed chunks (c ∷ ends)))
          (loop searcher none end_time self incoming freshlen timeout (feed chunks (c ∷ ends)))
  unfolding loop loop_unread attempt
  loop-Sought incoming freshlen timeout [] c ends d h =
      proceed-Sought incoming timeout [] (c ∷ ends) (record { read = failed end_of_file; now = c })
        (ends_feed ends) _ (some end_of_file) _ (searcher.search incoming freshlen none)
        (expired timeout) d refl (seeks.first incoming freshlen h) refl
        (λ a. inr (end-Missed incoming a))
  loop-Sought incoming freshlen timeout ((none, u) ∷ chunks) c ends d h =
      proceed-Sought incoming timeout ((none, u) ∷ chunks) (c ∷ ends)
        (record { read = closed; now = u }) (feed chunks (c ∷ ends)) _ none _
        (searcher.search incoming freshlen none) (expired timeout) d refl
        (seeks.first incoming freshlen h) refl
        (λ a.
          loop-Sought incoming freshlen (remaining end_time u) chunks c ends (remaining-none u) h)
  loop-Sought incoming freshlen timeout ((some x, u) ∷ chunks) c ends d h =
      proceed-Sought incoming timeout ((some x, u) ∷ chunks) (c ∷ ends)
        (record { read = chunk x; now = u }) (feed chunks (c ∷ ends)) _ none _
        (searcher.search incoming freshlen none) (expired timeout) d refl
        (seeks.first incoming freshlen h) refl
        (λ a.
          subst
            (λ all.
              Sought t self end_time all (c ∷ ends)
                (loop_unread searcher none end_time self (incoming ++ x) (length x)
                  (remaining end_time u) (feed chunks (c ∷ ends)))
                (loop searcher none end_time self (incoming ++ x) (length x) (remaining end_time u)
                  (feed chunks (c ∷ ends))))
            (append_assoc incoming x (feed_data chunks))
            (loop-Sought (incoming ++ x) (length x) (remaining end_time u) chunks c ends
              (remaining-none u) (grow-contains incoming freshlen (some x) h a)))

module _ {N : Type 0} (searcher : Search N) (t : Text) (seeks : Seeks searcher t) where
  -- A call with the timeout of the object and no search window, for a child that writes some data and closes
  -- its terminal: it returns at the first place of the text in what was in the buffer and that data, or meets the
  -- end of the data, in which the text then stands nowhere, or is out of time, if the object has a timeout.
  pub expect_loop-Sought :
      (self : Spawn N) (window : Option ℤ) (now : ℤ) (chunks : List (Option Text × ℤ)) (c : ℤ)
      (ends : List ℤ)
      → resolve default_window self.searchwindowsize window ≡ none
      → (let rounds = feed chunks (c ∷ ends) in
          Sought t self
            (deadline now self.timeout)
            (self.buffer ++ feed_data chunks)
            (c ∷ ends)
            (unread searcher self (some default_timeout) window now rounds)
            (expect_loop searcher self (some default_timeout) window now rounds))
  unfolding expect_loop unread
  expect_loop-Sought self window now chunks c ends w = rw w (
      loop-Sought searcher t seeks self (deadline now self.timeout) self.buffer (length self.buffer)
        self.timeout chunks c ends (deadline_none self.timeout)
        (subst (λ o. contains t o ≡ false) (sym (old_data-length self.buffer))
          (contains_empty t seeks.not_empty)))
    where
      deadline_none : (o : Option ℤ) → deadline now o ≡ none → o ≡ none
      deadline_none none h = refl
      deadline_none (some x) h = absurd cc
