-- ===== src/Pexpect/Process/Reported.antt =====
-- What the attributes of a `spawn` record of a child that has ended.
use cush.Prelude.{
  ◌≡◌, ◌⊎◌, refl, inl, inr, Bool, true, false, not, ℕ, none, some, if◌then◌else◌, Bool-cases,
}
use cush.Pexpect.Process.{
  Action, Os, Process, Reply, Signal, Waited, changed, done, fails, first_wait, follow,
  guarded_ladder, isalive, kill_child, ladder, last_look, no_child, note_status, on_os_error,
  os_error, pexpect_error, eof_error, timeout_error, value_error, pure, second_wait, send_signal,
  sent, sighup, sigcont, sigint, sigkill, terminate, try_signal, unchanged, wait_error, ◌>>=◌,
}

module _ {W : Type 0} (os : Os W) where
  -- The status that was noted, and what it says.
  pub record IsNoted (p : Process) : Type 0 where
    pub noted : ℕ
    pub status : p.status ≡ some noted
    pub meaning :
        ((os.wifexited noted ≡ true)
          × ((p.exitstatus ≡ some (os.wexitstatus noted)) × (p.signalstatus ≡ none)))
        ⊎ ((os.wifsignaled noted ≡ true)
            × ((p.exitstatus ≡ none) × (p.signalstatus ≡ some (os.wtermsig noted))))

  -- The child has not ended, or its status has been noted.
  abbrev pub IsReported : Process → Type 0
  IsReported p = (p.terminated ≡ false) ⊎ IsNoted p

  -- Whatever an operation does, the object is reported behind it if it was before.
  abbrev pub Keeps : {A : Type 0} → Action W A → Type 0
  Keeps m = (p : Process) (w : W) → IsReported p → IsReported (m (p, w)).1.0

  pub follow-IsReported :
      {A B : Type 0} (r : Reply A × (Process × W)) (f : A → Action W B)
      → IsReported r.1.0
      → ((a : A) → Keeps (f a))
      → IsReported (follow r f).1.0
  follow-IsReported (done a, (p, w)) f h k = k a p w h
  follow-IsReported (fails e, s) f h k = h

  pub >>=-Keeps :
      {A B : Type 0} (m : Action W A) (f : A → Action W B)
      → Keeps m
      → ((a : A) → Keeps (f a))
      → Keeps (m >>= f)
  >>=-Keeps m f h k p w r = follow-IsReported (m (p, w)) f (h p w r) k

  pub if-Keeps :
      {A : Type 0} (b : Bool) (m n : Action W A) → Keeps m → Keeps n → Keeps (if b then m else n)
  if-Keeps true m n h k = h
  if-Keeps false m n h k = k

  note_status-Keeps : (status : ℕ) → Keeps (note_status os status)
  note_status-Keeps status p w h = elim (Bool-cases (os.wifexited status)) [
    | inl e ↦ rw e (inr (record { noted = status; status = refl; meaning = inl (e, (refl, refl)) }))
    | inr e ↦ elim (Bool-cases (os.wifsignaled status)) [
      | inl q ↦
          rw (e, q)
            (inr (record { noted = status; status = refl; meaning = inr (q, (refl, refl)) }))
      | inr q ↦ elim (Bool-cases (os.wifstopped status)) [
        | inl a ↦ rw (e, q, a) h
        | inr a ↦ rw (e, q, a) h
      ]
    ]
  ]

  first_wait-IsReported :
      (p : Process) (r : Waited × W) → IsReported p → IsReported (first_wait os p r).1.0
  first_wait-IsReported p (no_child, w) h = h
  first_wait-IsReported p (wait_error, w) h = h
  first_wait-IsReported p (changed status, w) h = note_status-Keeps status p w h
  first_wait-IsReported p (unchanged, w) h = second (os.waitpid p.flag_eof w)
    where
      second : (r : Waited × W) → IsReported (second_wait os p r).1.0
      second (no_child, w) = h
      second (wait_error, w) = h
      second (unchanged, w) = h
      second (changed status, w) = note_status-Keeps status p w h

  pub isalive-Keeps : Keeps (isalive os)
  unfolding isalive
  isalive-Keeps p w h = go p.terminated
    where
      go :
          (b : Bool)
          → (let r : Reply Bool × (Process × W) =
                if b then (done false, (p, w)) else first_wait os p (os.waitpid p.flag_eof w) in
              IsReported r.1.0)
      go true = h
      go false = first_wait-IsReported p (os.waitpid p.flag_eof w) h

  send_signal-Keeps : (sig : Signal) → Keeps (send_signal os sig)
  send_signal-Keeps sig p w h = go (os.kill sig w)
    where
      go : (r : Bool × W) → IsReported (sent os p r).1.0
      go (true, w) = h
      go (false, w) = h

  pub kill_child-Keeps : (sig : Signal) → Keeps (kill_child os sig)
  unfolding kill_child
  kill_child-Keeps sig = >>=-Keeps (isalive os) _ isalive-Keeps (λ alive.
      if-Keeps alive (send_signal os sig) (pure false) (send_signal-Keeps sig) (λ p w h. h))

  try_signal-Keeps :
      (sig : Signal) (next : Action W Bool) → Keeps next → Keeps (try_signal os sig next)
  try_signal-Keeps sig next k p w h =
      follow-IsReported (kill_child os sig (p, w)) _ (kill_child-Keeps sig p w h) (λ a q v i.
        follow-IsReported (isalive os (q, os.sleep v)) _ (isalive-Keeps q (os.sleep v) i)
          (λ alive. if-Keeps (not alive) (pure true) next (λ q v i. i) k))

  ladder-Keeps : (force : Bool) → Keeps (ladder os force)
  ladder-Keeps force = try_signal-Keeps sighup _ (
      try_signal-Keeps sigcont _ (
        try_signal-Keeps sigint _ (
          if-Keeps force (try_signal os sigkill (pure false)) (pure false)
            (try_signal-Keeps sigkill (pure false) (λ p w h. h)) (λ p w h. h))))

  last_look-Keeps : Keeps (last_look os)
  last_look-Keeps p w h =
      follow-IsReported (isalive os (p, os.sleep w)) (λ alive. pure (not alive))
        (isalive-Keeps p (os.sleep w) h) (λ alive q v i. i)

  on_os_error-IsReported :
      (r : Reply Bool × (Process × W))
      → IsReported r.1.0
      → IsReported (on_os_error r (last_look os)).1.0
  on_os_error-IsReported (done a, s) h = h
  on_os_error-IsReported (fails os_error, (p, w)) h = last_look-Keeps p w h
  on_os_error-IsReported (fails pexpect_error, s) h = h
  on_os_error-IsReported (fails value_error, s) h = h
  on_os_error-IsReported (fails eof_error, s) h = h
  on_os_error-IsReported (fails timeout_error, s) h = h

  pub terminate-Keeps : (force : Bool) → Keeps (terminate os force)
  unfolding terminate
  terminate-Keeps force = >>=-Keeps (isalive os) _ isalive-Keeps (λ alive.
      if-Keeps (not alive) (pure true) (guarded_ladder os force) (λ p w h. h)
        (λ p w h. on_os_error-IsReported (ladder os force (p, w)) (ladder-Keeps force p w h)))
