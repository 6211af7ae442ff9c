-- ===== src/Pexpect/Expect/Feed.antt =====
-- A call of `expect_loop` without a deadline, for a child that writes some data and closes its
-- terminal.
use mathlib.Core.Path.{subst}
use cush.Prelude.{
  ◌≡◌, ◌⊎◌, refl, sym, ap, ◌∙◌, inl, inr, Option, none, some, List, [], ◌∷◌, ◌++◌, append_assoc,
  append-nil, ℕ,
}
use cush.Prelude.Int.{ℤ}
use cush.Prelude.Text.{Text}
use cush.Pexpect.Searcher.{Hit}
use cush.Pexpect.Expect.{
  Exception, Outcome, Read, Round, Search, Spawn, chunk, closed, end_of_file, failed, failure, grow,
  handle, succeed,
}
use cush.Pexpect.Expect.Story.{Story, fails, hit, late, reads, waits}

-- The rounds, each with its clock: a read brings data, or the `None` that the thread queues last; then
-- every read meets the end of the file.
abbrev pub data_read : Option Text → Read
data_read none = closed
data_read (some c) = chunk c

abbrev pub ends_feed : List ℤ → List Round
ends_feed [] = []
ends_feed (t ∷ ends) = record { read = failed end_of_file; now = t } ∷ ends_feed ends

abbrev pub feed : List (Option Text × ℤ) → List ℤ → List Round
feed [] ends = ends_feed ends
feed ((o, t) ∷ chunks) ends = record { read = data_read o; now = t } ∷ feed chunks ends

abbrev pub feed_data : List (Option Text × ℤ) → Text
feed_data [] = []
feed_data ((none, t) ∷ chunks) = feed_data chunks
feed_data ((some c, t) ∷ chunks) = c ++ feed_data chunks

split_round :
    (q : Round) (rounds : List Round) (r : Round) (others : List Round)
    → q ∷ rounds ≡ r ∷ others
    → (q ≡ r) × (rounds ≡ others)
split_round q rounds r others h = (cc, cc)

failed_with : (q : Round) (e d : Exception) → q.read ≡ failed d → failure q.read ≡ some e → d ≡ e
failed_with q e d h g = let k : failure (failed d) ≡ some e = ap failure (sym h) ∙ g in cc

read_fine :
    (o : Option Text) (q : Round) (e : Exception)
    → q.read ≡ data_read o
    → failure q.read ≡ some e
    → ⊥
read_fine none q e h g = let k : failure closed ≡ some e = ap failure (sym h) ∙ g in cc
read_fine (some c) q e h g = let k : failure (chunk c) ≡ some e = ap failure (sym h) ∙ g in cc

not_fine : (q : Round) (d : Exception) → q.read ≡ failed d → failure q.read ≡ none → ⊥
not_fine q d h g = let k : failure (failed d) ≡ none = ap failure (sym h) ∙ g in cc

module _ {M : Type 0} (searcher : Search M) (window : Option ℤ) (self : Spawn M) where
  -- The searcher finds something in what has been read; the rest of the data is still to come.
  pub record IsHit (all : Text) (ends : List ℤ) (unread : List Round) (result : Outcome × Spawn M)
      : Type 0 where
    pub incoming : Text
    pub freshlen : ℕ
    pub chunks : List (Option Text × ℤ)
    pub hit : Hit M
    pub found : searcher.search incoming freshlen window ≡ some hit
    pub outcome : result ≡ succeed self incoming hit
    pub left : unread ≡ feed chunks ends
    pub divides : incoming ++ feed_data chunks ≡ all

  -- The searcher finds nothing, and the call meets the end of the file.
  pub record IsEnd (all : Text) (ends : List ℤ) (unread : List Round) (result : Outcome × Spawn M)
      : Type 0 where
    pub freshlen : ℕ
    pub others : List ℤ
    pub end_clock : ℤ
    pub found : searcher.search all freshlen window ≡ none
    pub outcome : result ≡ handle searcher self all end_of_file
    pub left : unread ≡ ends_feed others
    pub reads_end : ends ≡ end_clock ∷ others

  abbrev pub IsFed : Text → List ℤ → List Round → Outcome × Spawn M → Type 0
  IsFed all ends unread result = IsHit all ends unread result ⊎ IsEnd all ends unread result

  end-IsFed :
      (incoming : Text) (freshlen : ℕ) (t : ℤ) (ends : List ℤ) (unread : List Round) (e : Exception)
      → end_of_file ≡ e
      → searcher.search incoming freshlen window ≡ none
      → unread ≡ ends_feed ends
      → IsFed (incoming ++ []) (t ∷ ends) unread (handle searcher self incoming e)
  end-IsFed incoming freshlen t ends unread e same p h = inr (record {
    freshlen = freshlen;
    others = ends;
    end_clock = t;
    found = subst (λ a. searcher.search a freshlen window ≡ none) (sym (append-nil incoming)) p;
    outcome =
        ap (handle searcher self incoming) (sym same)
        ∙ ap (λ a. handle searcher self a end_of_file) (sym (append-nil incoming));
    left = h;
    reads_end = refl;
  })

  -- Without a deadline, a call that still meets the end of the file ends in a hit or there.
  pub Story-IsFed :
      (incoming : Text) (chunks : List (Option Text × ℤ)) (t : ℤ) (ends : List ℤ)
      (rounds unread : List Round) (result : Outcome × Spawn M)
      → Story searcher window none self incoming rounds unread result
      → rounds ≡ feed chunks (t ∷ ends)
      → IsFed (incoming ++ feed_data chunks) (t ∷ ends) unread result
  Story-IsFed incoming chunks t ends rounds unread result (hit freshlen h p) f = inl (record {
    incoming = incoming;
    freshlen = freshlen;
    chunks = chunks;
    hit = h;
    found = p;
    outcome = refl;
    left = f;
    divides = refl;
  })
  Story-IsFed incoming chunks t ends rounds unread result (late freshlen s q p) f = absurd cc
  Story-IsFed incoming [] t ends rounds unread result (waits freshlen p) f = absurd cc
  Story-IsFed incoming (c ∷ chunks) t ends rounds unread result (waits freshlen p) f = absurd cc
  Story-IsFed incoming [] t ends rounds unread result (fails freshlen q e g p) f =
      let (same, rest) = split_round q unread _ _ f in
      end-IsFed incoming freshlen t ends unread e
        (failed_with q e end_of_file (ap (λ x. x.read) same) g) p rest
  Story-IsFed incoming ((o, u) ∷ chunks) t ends rounds unread result (fails freshlen q e g p) f =
      absurd (read_fine o q e (ap (λ x. x.read) (split_round q unread _ _ f).0) g)
  Story-IsFed incoming [] t ends rounds unread result (reads freshlen q g p s) f =
      absurd (not_fine q end_of_file (ap (λ x. x.read) (split_round q _ _ _ f).0) g)
  Story-IsFed incoming ((none, u) ∷ chunks) t ends rounds unread result
        (reads {rounds = later} freshlen q g p s) f =
      let (same, rest) = split_round q _ _ _ f in
      let nothing_new : grow incoming q.read ≡ incoming = ap (λ x. grow incoming x.read) same in
      Story-IsFed incoming chunks t ends _ unread result
        (subst (λ i. Story searcher window none self i later unread result) nothing_new s) rest
  Story-IsFed incoming ((some c, u) ∷ chunks) t ends rounds unread result
        (reads {rounds = later} freshlen q g p s) f =
      let (same, rest) = split_round q _ _ _ f in
      let more : grow incoming q.read ≡ incoming ++ c = ap (λ x. grow incoming x.read) same in
      subst (λ a. IsFed a (t ∷ ends) unread result) (append_assoc incoming c (feed_data chunks))
        (Story-IsFed (incoming ++ c) chunks t ends _ unread result
          (subst (λ i. Story searcher window none self i later unread result) more s) rest)
