-- ===== src/Pexpect/Process/Waits.antt =====
-- `wait`, and what it records.
use cush.Prelude.{
  ◌≡◌, refl, sym, ap, ◌∙◌, inl, inr, Bool, true, false, ℕ, Option, if◌then◌else◌, Bool-cases,
}
use cush.Pexpect.Process.{
  Action, Os, Process, Reply, Waited, block, changed, done, fail, fails, first_wait, follow,
  isalive, no_child, note_status, pexpect_error, second_wait, unchanged, wait, wait_answer,
  wait_error,
}
use cush.Pexpect.Process.Reported.{IsReported, Keeps, isalive-Keeps}

module _ {W : Type 0} (os : Os W) where
  note_status-gone : (status : ℕ) (s : Process × W) → (note_status os status s).0 ≡ done true → ⊥
  note_status-gone status s h = elim (Bool-cases (os.wifexited status)) [
    | inl e ↦ cc (rw e at h)
    | inr e ↦ elim (Bool-cases (os.wifsignaled status)) [
      | inl q ↦ cc (rw (e, q) at h)
      | inr q ↦ elim (Bool-cases (os.wifstopped status)) [
        | inl a ↦ cc (rw (e, q, a) at h)
        | inr a ↦ cc (rw (e, q, a) at h)
      ]
    ]
  ]

  -- A child that `isalive` takes for alive is not marked as ended.
  isalive-live :
      (s : Process × W) → (isalive os s).0 ≡ done true → (isalive os s).1.0.terminated ≡ false
  unfolding isalive
  isalive-live (p, w) h = go p.terminated refl h
    where
      answer : Bool → Reply Bool × (Process × W)
      answer b = if b then (done false, (p, w)) else first_wait os p (os.waitpid p.flag_eof w)

      second :
          (r : Waited × W)
          → p.terminated ≡ false
          → (second_wait os p r).0 ≡ done true
          → (second_wait os p r).1.0.terminated ≡ false
      second (no_child, w) e k = e
      second (wait_error, w) e k = e
      second (unchanged, w) e k = e
      second (changed status, w) e k = absurd (note_status-gone status (p, w) k)

      first :
          (r : Waited × W)
          → p.terminated ≡ false
          → (first_wait os p r).0 ≡ done true
          → (first_wait os p r).1.0.terminated ≡ false
      first (no_child, w) e k = e
      first (wait_error, w) e k = e
      first (unchanged, w) e k = second (os.waitpid p.flag_eof w) e k
      first (changed status, w) e k = absurd (note_status-gone status (p, w) k)

      go :
          (b : Bool)
          → p.terminated ≡ b
          → (answer b).0 ≡ done true
          → (answer b).1.0.terminated ≡ false
      go true e k = absurd cc
      go false e k = first (os.waitpid p.flag_eof w) e k

  block-IsReported :
      (p : Process) (r : Waited × W) → p.terminated ≡ false → IsReported os (wait_answer os p r).1.0
  block-IsReported p (no_child, w) h = inl h
  block-IsReported p (wait_error, w) h = inl h
  block-IsReported p (unchanged, w) h = inl h
  block-IsReported p (changed status, w) h = elim (Bool-cases (os.wifexited status)) [
    | inl e ↦ rw e (inr (record { noted = status; status = refl; meaning = inl (e, (refl, refl)) }))
    | inr e ↦ elim (Bool-cases (os.wifsignaled status)) [
      | inl q ↦
          rw (e, q)
            (inr (record { noted = status; status = refl; meaning = inr (q, (refl, refl)) }))
      | inr q ↦ elim (Bool-cases (os.wifstopped status)) [
        | inl a ↦ rw (e, q, a) (inl h)
        | inr a ↦ rw (e, q, a) (inl h)
      ]
    ]
  ]

  pub wait-Keeps : Keeps os (wait os)
  unfolding wait
  wait-Keeps p w h = go (isalive os (p, w)) refl (isalive-Keeps os p w h)
    where
      next : Bool → Action W (Option ℕ)
      next alive = if alive then block os else fail pexpect_error

      go :
          (r : Reply Bool × (Process × W))
          → isalive os (p, w) ≡ r
          → IsReported os r.1.0
          → IsReported os (follow r next).1.0
      go (done true, (q, v)) e k =
          let live : (isalive os (p, w)).1.0.terminated ≡ false =
            isalive-live (p, w) (ap (λ r. r.0) e) in
          block-IsReported q (os.waitpid true v) (sym (ap (λ r. r.1.0.terminated) e) ∙ live)
      go (done false, (q, v)) e k = k
      go (fails f, (q, v)) e k = k
