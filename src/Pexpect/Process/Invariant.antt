-- ===== src/Pexpect/Process/Invariant.antt =====
-- The operations on a `spawn`, in any order.
use cush.Prelude.{
  inl, inr, Bool, true, false, not, ℕ, Option, none, some, List, [], ◌∷◌, if◌then◌else◌,
}
use cush.Pexpect.Process.{
  Action, Os, Process, Reply, Signal, done, fail, fails, follow, isalive, kill_child, pexpect_error,
  timeout_error, value_error, pure, terminate, wait,
}
use cush.Prelude.Int.{ℤ, pos}
use cush.Prelude.Text.{Text}
use cush.Pexpect.Drain.{stop}
use cush.Pexpect.Expect.{default_timeout, resolve}
use cush.Pexpect.Process.Terminal.{
  close, close_fd_with, close_open, closing, end_of_file_here, irix_gone, look_alive, look_dead,
  look_irix, mark_closed, not_ready, read_nonblocking, reading, read_text, ready, stop_drain,
  take_text,
}
use cush.Pexpect.Process.Reported.{
  IsReported, Keeps, follow-IsReported, >>=-Keeps, if-Keeps, isalive-Keeps, kill_child-Keeps,
  terminate-Keeps,
}
use cush.Pexpect.Process.Waits.{wait-Keeps}

module _ {W : Type 0} (os : Os W) where
  stop_drain-IsReported : (p : Process) → IsReported os p → IsReported os (stop_drain os p)
  stop_drain-IsReported p h = go p.drain.drainpty
    where
      go :
          (b : Bool)
          → (let q : Process = if b then record p { drain = stop p.drain } else p in
              IsReported os q)
      go true = elim h [
        | inl e ↦ inl e
        | inr n ↦ inr (record { noted = n.noted; status = n.status; meaning = n.meaning })
      ]
      go false = h

  close_open-Keeps : Keeps os (close_open os)
  close_open-Keeps p w h = go (os.close_fd p.child_fd w)
    where
      go : (r : Bool × W) → IsReported os (close_fd_with os (stop_drain os p) r).1.0
      go (true, v) = stop_drain-IsReported p h
      go (false, v) = stop_drain-IsReported p h

  mark_closed-Keeps : Keeps os (mark_closed os)
  mark_closed-Keeps p w (inl e) = inl e
  mark_closed-Keeps p w (inr n) =
      inr (record { noted = n.noted; status = n.status; meaning = n.meaning })

  close-Keeps : (force : Bool) → Keeps os (close os force)
  unfolding close closing
  close-Keeps force p w h = go p.closed
    where
      go :
          (b : Bool)
          → (let r : Reply Bool × (Process × W) =
                if b then (done true, (p, w)) else closing os force (p, w) in
              IsReported os r.1.0)
      go true = h
      go false = follow-IsReported os (close_open os (p, w)) _ (close_open-Keeps p w h) (λ a q v i.
          follow-IsReported os (isalive os (q, os.sleep v)) _ (isalive-Keeps os q (os.sleep v) i)
            (λ alive.
              >>=-Keeps os (if alive then terminate os force else pure true)
                (λ killed. if killed then mark_closed os else fail pexpect_error)
                (if-Keeps os alive (terminate os force) (pure true) (terminate-Keeps os force)
                  (λ q v i. i))
                (λ killed.
                  if-Keeps os killed (mark_closed os) (fail pexpect_error) mark_closed-Keeps
                    (λ q v i. i))))

  end_of_file_here-Keeps : (A : Type 0) → Keeps os {A = A} (end_of_file_here os)
  end_of_file_here-Keeps A p w (inl e) = inl e
  end_of_file_here-Keeps A p w (inr n) =
      inr (record { noted = n.noted; status = n.status; meaning = n.meaning })

  ready-Keeps : (timeout : Option ℤ) → Keeps os (ready os timeout)
  ready-Keeps timeout p w h = h

  read_text-Keeps : (size : ℕ) → Keeps os (read_text os size)
  read_text-Keeps size p w h = go (os.read size w) h
    where
      go : (r : Option Text × W) → IsReported os p → IsReported os (take_text os p r).1.0
      go (none, v) i = end_of_file_here-Keeps Text p v i
      go (some [], v) i = end_of_file_here-Keeps Text p v i
      go (some (c ∷ s), v) (inl e) = inl e
      go (some (c ∷ s), v) (inr n) =
          inr (record { noted = n.noted; status = n.status; meaning = n.meaning })

  -- `isalive`, and one of two operations behind it.
  asked-Keeps :
      {A : Type 0} (m n : Action W A) (p : Process) (w : W)
      → Keeps os m
      → Keeps os n
      → IsReported os p
      → IsReported os (follow (isalive os (p, w)) (λ alive. if alive then m else n)).1.0
  asked-Keeps m n p w h k i =
      follow-IsReported os (isalive os (p, w)) (λ alive. if alive then m else n)
        (isalive-Keeps os p w i) (λ alive. if-Keeps os alive m n h k)

  look-Keeps : (alive : Bool) → Keeps os (if not alive then look_dead os else look_alive os)
  look-Keeps false p w h =
      if-Keeps os (os.select (some (pos 0)) w).0 (pure true) (end_of_file_here os) (λ q v i. i)
        (end_of_file_here-Keeps Bool) p (os.select (some (pos 0)) w).1 h
  look-Keeps true p w h = go p.irix_hack
    where
      go :
          (b : Bool)
          → (let r : Reply Bool × (Process × W) =
                if b then look_irix os (p, w) else (done true, (p, w)) in
              IsReported os r.1.0)
      go false = h
      go true =
          if-Keeps os (os.select (some (pos 2000)) w).0 (pure true) (irix_gone os) (λ q v i. i)
            (λ q v i.
              asked-Keeps (pure true) (end_of_file_here os) q v (λ a b c. c)
                (end_of_file_here-Keeps Bool) i)
            p (os.select (some (pos 2000)) w).1 h

  not_ready-Keeps : Keeps os (not_ready os)
  not_ready-Keeps p w h =
      follow-IsReported os (isalive os (p, w)) _ (isalive-Keeps os p w h) (λ alive.
        if-Keeps os (not alive) (end_of_file_here os) (fail timeout_error)
          (end_of_file_here-Keeps Text) (λ q v i. i))

  read_nonblocking-Keeps :
      (size : ℕ) (timeout : Option ℤ) → Keeps os (read_nonblocking os size timeout)
  unfolding read_nonblocking reading
  read_nonblocking-Keeps size timeout p w h = go p.closed
    where
      limit : Option ℤ
      limit = resolve default_timeout p.read_timeout timeout

      go :
          (b : Bool)
          → (let r : Reply Text × (Process × W) =
                if b then (fails value_error, (p, w)) else reading os size limit (p, w) in
              IsReported os r.1.0)
      go true = h
      go false = follow-IsReported os (isalive os (p, w)) _ (isalive-Keeps os p w h) (λ alive q v i.
          follow-IsReported os ((if not alive then look_dead os else look_alive os) (q, v)) _
            (look-Keeps alive q v i)
            (λ a x u j.
              if-Keeps os (not (os.select limit u).0) (not_ready os) (read_text os size)
                not_ready-Keeps (read_text-Keeps size) x (os.select limit u).1 j))

-- The calls that a user of the object may make.
pub data Operation : Type 0 where
  ask_alive wait_for : Operation
  kill_with : Signal → Operation
  terminate_with close_with : Bool → Operation
  read_some : ℕ → Option ℤ → Operation

module _ {W : Type 0} (os : Os W) where
  -- What a call leaves, whether it returned or raised.
  abbrev pub perform : Operation → Process × W → Process × W
  perform ask_alive s = (isalive os s).1
  perform wait_for s = (wait os s).1
  perform (kill_with sig) s = (kill_child os sig s).1
  perform (terminate_with force) s = (terminate os force s).1
  perform (close_with force) s = (close os force s).1
  perform (read_some size timeout) s = (read_nonblocking os size timeout s).1

  abbrev pub perform_all : List Operation → Process × W → Process × W
  perform_all [] s = s
  perform_all (o ∷ operations) s = perform_all operations (perform o s)

  perform-IsReported :
      (o : Operation) (p : Process) (w : W) → IsReported os p → IsReported os (perform o (p, w)).0
  perform-IsReported ask_alive = isalive-Keeps os
  perform-IsReported wait_for = wait-Keeps os
  perform-IsReported (kill_with sig) = kill_child-Keeps os sig
  perform-IsReported (terminate_with force) = terminate-Keeps os force
  perform-IsReported (close_with force) = close-Keeps os force
  perform-IsReported (read_some size timeout) = read_nonblocking-Keeps os size timeout

  -- After any sequence of calls, each of which may have raised, an object that counts its child as ended
  -- holds a status that the system gave, and its exit status and signal are those of that status: the
  -- exit status alone if the child exited, the signal alone if a signal ended it. It is enough that this
  -- holds, or that the child has not ended, at first.
  pub perform_all-IsReported :
      (operations : List Operation) (p : Process) (w : W)
      → IsReported os p
      → IsReported os (perform_all operations (p, w)).0
  perform_all-IsReported [] p w h = h
  perform_all-IsReported (o ∷ operations) p w h =
      perform_all-IsReported operations (perform o (p, w)).0 (perform o (p, w)).1
        (perform-IsReported o p w h)
