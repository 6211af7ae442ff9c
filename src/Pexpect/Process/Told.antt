-- ===== src/Pexpect/Process/Told.antt =====
-- The answers of `isalive`, `terminate` and `close`, and what the object holds then.
use mathlib.Core.Path.{subst}
use cush.Prelude.{
  ◌≡◌, ◌⊎◌, refl, sym, inl, inr, Bool, true, false, not, ℕ, if◌then◌else◌, Bool-cases,
}
use cush.Prelude.Int.{negsuc}
use cush.Pexpect.Process.{
  Action, Os, Process, Reply, Signal, Waited, changed, done, fail, fails, first_wait, follow,
  guarded_ladder, isalive, kill_child, ladder, last_look, no_child, note_status, on_os_error,
  os_error, pexpect_error, eof_error, timeout_error, value_error, pure, second_wait, sighup,
  sigcont, sigint, sigkill, terminate, try_signal, unchanged, wait_error,
}
use cush.Pexpect.Process.Terminal.{close, close_open, closing, mark_closed}

module _ {W : Type 0} where
  -- `Q` holds of the result and the object, where the operation does not raise.
  abbrev pub Post : {A : Type 0} → (A → Process × W → Type 0) → Reply A × (Process × W) → Type 0
  Post Q (done a, s) = Q a s
  Post Q (fails e, s) = Unit

  pub follow-Post :
      {A B : Type 0} (Q : A → Process × W → Type 0) (R : B → Process × W → Type 0)
      (r : Reply A × (Process × W)) (f : A → Action W B)
      → Post Q r
      → ((a : A) (s : Process × W) → Q a s → Post R (f a s))
      → Post R (follow r f)
  follow-Post Q R (done a, s) f q k = k a s q
  follow-Post Q R (fails e, s) f q k = tt

  any-Post : {A : Type 0} (r : Reply A × (Process × W)) → Post (λ a s. Unit) r
  any-Post (done a, s) = tt
  any-Post (fails e, s) = tt

  -- The answer of `isalive`, and that of `terminate`, agree with `terminated`.
  abbrev pub Told : Bool → Process × W → Type 0
  Told alive (p, w) = p.terminated ≡ not alive

  abbrev pub Ended : Bool → Process × W → Type 0
  Ended ended (p, w) = p.terminated ≡ ended

  -- What `close` leaves: the terminal is closed, and the end of the child has been noted.
  abbrev pub Released : Bool → Process × W → Type 0
  Released b (p, w) = (p.closed ≡ true) × ((p.child_fd ≡ negsuc 0) × (p.terminated ≡ true))

  -- Every status that `waitpid` gives is that of a process that exited, was killed by a signal or was
  -- stopped.
  abbrev pub IsClassified : Os W → Type 0
  IsClassified os =
      (status : ℕ)
      → (os.wifexited status ≡ true)
        ⊎ ((os.wifsignaled status ≡ true) ⊎ (os.wifstopped status ≡ true))

  module _ (os : Os W) (classified : IsClassified os) where
    note_status-Told : (status : ℕ) (p : Process) (w : W) → Post Told (note_status os status (p, w))
    note_status-Told status p w = elim (Bool-cases (os.wifexited status)) [
      | inl e ↦ rw e refl
      | inr e ↦ elim (Bool-cases (os.wifsignaled status)) [
        | inl q ↦ rw (e, q) refl
        | inr q ↦ rw (e, q, stopped e q) tt
      ]
    ]
      where
        stopped :
            os.wifexited status ≡ false
            → os.wifsignaled status ≡ false
            → os.wifstopped status ≡ true
        stopped e q = elim (classified status) [
          | inl a ↦ cc (a, e)
          | inr (inl a) ↦ cc (a, q)
          | inr (inr a) ↦ a
        ]

    second_wait-Told :
        (p : Process) (r : Waited × W) → p.terminated ≡ false → Post Told (second_wait os p r)
    second_wait-Told p (no_child, w) h = tt
    second_wait-Told p (wait_error, w) h = tt
    second_wait-Told p (unchanged, w) h = h
    second_wait-Told p (changed status, w) h = note_status-Told status p w

    first_wait-Told :
        (p : Process) (r : Waited × W) → p.terminated ≡ false → Post Told (first_wait os p r)
    first_wait-Told p (no_child, w) h = tt
    first_wait-Told p (wait_error, w) h = tt
    first_wait-Told p (unchanged, w) h = second_wait-Told p (os.waitpid p.flag_eof w) h
    first_wait-Told p (changed status, w) h = note_status-Told status p w

    pub isalive-Told : (s : Process × W) → Post Told (isalive os s)
    unfolding isalive
    isalive-Told (p, w) = go p.terminated refl
      where
        go :
            (b : Bool)
            → p.terminated ≡ b
            → Post Told
                (if b then (done false, (p, w)) else first_wait os p (os.waitpid p.flag_eof w))
        go true e = e
        go false e = first_wait-Told p (os.waitpid p.flag_eof w) e

    try_signal-Ended :
        (sig : Signal) (next : Action W Bool) (s : Process × W)
        → ((t : Process × W) → t.0.terminated ≡ false → Post Ended (next t))
        → Post Ended (try_signal os sig next s)
    try_signal-Ended sig next s k =
        follow-Post (λ a t. Unit) Ended (kill_child os sig s) _ (any-Post (kill_child os sig s))
          (λ a t u.
            follow-Post Told Ended (isalive os (t.0, os.sleep t.1)) _
              (isalive-Told (t.0, os.sleep t.1)) look)
      where
        look :
            (alive : Bool) (t : Process × W)
            → Told alive t
            → Post Ended ((if not alive then pure true else next) t)
        look true t h = k t h
        look false t h = h

    ladder-Ended : (force : Bool) (s : Process × W) → Post Ended (ladder os force s)
    ladder-Ended force s =
        try_signal-Ended sighup _ s
          (λ t h. try_signal-Ended sigcont _ t (λ u i. try_signal-Ended sigint _ u (forced force)))
      where
        forced :
            (force : Bool) (t : Process × W)
            → t.0.terminated ≡ false
            → Post Ended ((if force then try_signal os sigkill (pure false) else pure false) t)
        forced true t h = try_signal-Ended sigkill (pure false) t (λ u i. i)
        forced false t h = h

    last_look-Ended : (s : Process × W) → Post Ended (last_look os s)
    last_look-Ended s =
        follow-Post Told Ended (isalive os (s.0, os.sleep s.1)) _ (isalive-Told (s.0, os.sleep s.1))
          (λ alive t h. h)

    on_os_error-Ended :
        (r : Reply Bool × (Process × W)) → Post Ended r → Post Ended (on_os_error r (last_look os))
    on_os_error-Ended (done a, s) h = h
    on_os_error-Ended (fails os_error, s) h = last_look-Ended s
    on_os_error-Ended (fails pexpect_error, s) h = tt
    on_os_error-Ended (fails value_error, s) h = tt
    on_os_error-Ended (fails eof_error, s) h = tt
    on_os_error-Ended (fails timeout_error, s) h = tt

    -- If every status is that of a process that exited, was killed or was stopped: where `terminate`
    -- returns, forced or not, its result is True exactly if the end of the child has been noted.
    pub terminate-Ended : (force : Bool) (s : Process × W) → Post Ended (terminate os force s)
    unfolding terminate
    terminate-Ended force s = follow-Post Told Ended (isalive os s) _ (isalive-Told s) look
      where
        look :
            (alive : Bool) (t : Process × W)
            → Told alive t
            → Post Ended ((if not alive then pure true else guarded_ladder os force) t)
        look true t h = on_os_error-Ended (ladder os force t) (ladder-Ended force t)
        look false t h = h

    killing-Ended :
        (force alive : Bool) (t : Process × W)
        → Told alive t
        → Post Ended ((if alive then terminate os force else pure true) t)
    killing-Ended force true t h = terminate-Ended force t
    killing-Ended force false t h = h

    marking-Released :
        (killed : Bool) (t : Process × W)
        → Ended killed t
        → Post Released ((if killed then mark_closed os else fail pexpect_error) t)
    marking-Released true t h = (refl, (refl, h))
    marking-Released false t h = tt

    -- If every status is that of a process that exited, was killed or was stopped: where `close` returns
    -- on an object that is not closed, forced or not, the object is closed, its file descriptor is -1,
    -- and the end of the child has been noted.
    pub close-Released :
        (force : Bool) (s : Process × W) → s.0.closed ≡ false → Post Released (close os force s)
    unfolding close closing
    close-Released force (p, w) h =
        subst (λ b. Post Released (if b then (done true, (p, w)) else closing os force (p, w)))
          (sym h)
          (follow-Post (λ a t. Unit) Released (close_open os (p, w)) _
            (any-Post (close_open os (p, w)))
            (λ a t u.
              follow-Post Told Released (isalive os (t.0, os.sleep t.1)) _
                (isalive-Told (t.0, os.sleep t.1))
                (λ alive v told.
                  follow-Post Ended Released _ _ (killing-Ended force alive v told)
                    marking-Released)))
