-- ===== src/Pexpect/Pty/Descriptors.antt =====
-- pexpect-dpty/pexpect.py: the descriptors and the controlling terminal under `__pty_make_controlling_tty`.
use mathlib.Core.Path.{subst}
use cush.Prelude.{
  Bool, true, ℕ, ◌≡◌, ◌≢◌, sym, ◌∙◌, inl, inr, Option, none, some, arith, Bool-cases, ◌==◌,
}
use cush.Prelude.Int.{ℤ, negsuc, pos}
use cush.Prelude.Text.{Text}
use cush.Pexpect.Process.{
  Reply, done, eof_error, fails, os_error, pexpect_error, timeout_error, value_error,
}
use cush.Pexpect.Pty.{
  Flags, PtyOs, Task, call, dev_tty, fail, follow, on_fd, pass_over, pty_make_controlling_tty, pure,
  raise_none, rdwr, rdwr_noctty, verify_disconnected, wronly, ◌>>◌, ◌>>=◌,
}

-- The table of descriptors of the process, its controlling terminal, whether it leads its session, the terminals that
-- control no session, and the files that names stand for.
pub record View (W F : Type 0) : Type 0 where
  pub file : W → ℕ → Option F
  pub controlling : W → Option F
  pub leader : W → Bool
  pub unowned : W → F → Bool
  pub device : Text → Option F

module _ {W F : Type 0} (v : View W F) where
  -- The tables are the same, but for one descriptor.
  abbrev pub Same : W → W → Type 0
  Same w w' = (n : ℕ) → v.file w' n ≡ v.file w n

  abbrev pub SameBut : ℕ → W → W → Type 0
  SameBut fd w w' = (n : ℕ) → n ≢ fd → v.file w' n ≡ v.file w n

  -- No session has taken a terminal.
  abbrev pub Calm : W → W → Type 0
  Calm w w' = (f : F) → v.unowned w f ≡ true → v.unowned w' f ≡ true

  abbrev pub Steady : W → W → Type 0
  Steady w w' = (v.controlling w' ≡ v.controlling w) × (v.leader w' ≡ v.leader w) × Calm w w'

  abbrev pub OpensPty : W → Option (ℤ × ℤ) × W → Type 0
  OpensPty w (none, w') = Same w w'
  OpensPty w (some (pos p, pos c), w') =
      (p ≢ c)
      × (v.file w p ≡ none)
      × (v.file w c ≡ none)
      × ((n : ℕ) → n ≢ p → n ≢ c → v.file w' n ≡ v.file w n)
      × ((master : F) × (v.file w' p ≡ some master))
      × ((slave : F) × (v.file w' c ≡ some slave) × (v.unowned w' slave ≡ true))
  OpensPty w (some _, w') = ⊥

  abbrev pub Forks : W → Option ℤ × W → Type 0
  Forks w (some (negsuc n), w') = ⊥
  Forks w (_, w') = Same w w' × Calm w w'

  -- What `os.open` does to the controlling terminal: with O_NOCTTY nothing; without it, the leader of a session
  -- that has none gets the terminal that it opens, if that controls no session. A process that has one keeps it.
  abbrev pub Takes : Text → Flags → W → W → Type 0
  Takes name rdwr_noctty w w' = Steady w w'
  Takes name _ w w' =
      (v.controlling w ≢ none → v.controlling w' ≡ v.controlling w)
      × ((f : F)
          → v.leader w ≡ true
          → v.controlling w ≡ none
          → v.device name ≡ some f
          → v.unowned w f ≡ true
          → v.controlling w' ≡ some f)

  abbrev pub Opens : Text → Flags → W → Option ℤ × W → Type 0
  Opens name flags w (none, w') = Same w w' × Steady w w'
  Opens name flags w (some (pos fd), w') =
      (v.file w fd ≡ none) × SameBut fd w w' × Takes name flags w w'
  Opens name flags w (some (negsuc n), w') = ⊥

  abbrev pub Names : ℕ → W → Option Text × W → Type 0
  Names fd w (none, w') = Same w w' × Steady w w'
  Names fd w (some name, w') = Same w w' × (v.device name ≡ v.file w fd) × Steady w w'

  -- A process that has left its session leads a new one, without a terminal.
  abbrev pub Leads : W → W → Type 0
  Leads w w' = Same w w' × (v.controlling w' ≡ none) × (v.leader w' ≡ true) × Calm w w'

  abbrev pub LeavesSession : W → Option (Unit {0}) × W → Type 0
  LeavesSession w (none, w') = Same w w'
  LeavesSession w (some x, w') = Leads w w'

  abbrev pub Dups : ℕ → ℕ → W → Option (Unit {0}) × W → Type 0
  Dups a b w (none, w') = Unit
  Dups a b w (some x, w') =
      (v.file w' b ≡ v.file w a) × SameBut b w w' × (v.controlling w' ≡ v.controlling w)

  -- A descriptor that was closed is free, even where `os.close` raised.
  abbrev pub Closes : ℕ → W → W → Type 0
  Closes fd w w' = (v.file w' fd ≡ none) × SameBut fd w w' × Steady w w'

  -- What the functions of `os` do, where no other session takes a terminal meanwhile.
  pub record PtyLaws (os : PtyOs W) : Type 0 where
    pub opens_pty : (w : W) → OpensPty w (os.openpty w)
    pub forks : (w : W) → Forks w (os.fork w)
    pub opens :
        (name : Text) (flags : Flags) (w : W) → Opens name flags w (os.open_file name flags w)
    pub no_tty : (w : W) → v.controlling w ≡ none → (os.open_file dev_tty rdwr_noctty w).0 ≡ none
    pub names : (fd : ℕ) (w : W) → Names fd w (os.ttyname (pos fd) w)
    pub leaves : (w : W) → LeavesSession w (os.setsid w)
    pub dups : (a b : ℕ) (w : W) → Dups a b w (os.dup2 (pos a) (pos b) w)
    pub closes : (fd : ℕ) (w : W) → Closes fd w ((os.close (pos fd) w).1)

  -- What holds where a task returns. It may raise an OSError, and no other exception.
  abbrev pub After : {A : Type 0} → (A → W → Type 0) → Reply A × W → Type 0
  After P (done a, w) = P a w
  After P (fails os_error, w) = Unit
  After P (fails _, w) = ⊥

  pub follow-After :
      {A B : Type 0} (P : A → W → Type 0) (Q : B → W → Type 0) (r : Reply A × W) (f : A → Task W B)
      → After P r
      → ((a : A) (w : W) → P a w → After Q (f a w))
      → After Q (follow r f)
  follow-After P Q (done a, w) f h k = k a w h
  follow-After P Q (fails os_error, w) f h k = tt
  follow-After P Q (fails pexpect_error, w) f h k = absurd h
  follow-After P Q (fails value_error, w) f h k = absurd h
  follow-After P Q (fails eof_error, w) f h k = absurd h
  follow-After P Q (fails timeout_error, w) f h k = absurd h

  pub After-impl :
      {A : Type 0} (P Q : A → W → Type 0) (r : Reply A × W)
      → ((a : A) (w : W) → P a w → Q a w)
      → After P r
      → After Q r
  After-impl P Q (done a, w) k h = k a w h
  After-impl P Q (fails os_error, w) k h = tt
  After-impl P Q (fails pexpect_error, w) k h = absurd h
  After-impl P Q (fails value_error, w) k h = absurd h
  After-impl P Q (fails eof_error, w) k h = absurd h
  After-impl P Q (fails timeout_error, w) k h = absurd h

  -- The same table, and this controlling terminal.
  abbrev pub Stands : W → Option F → W → Type 0
  Stands w terminal w' = Same w w' × (v.controlling w' ≡ terminal)

  Same-close :
      (fd : ℕ) (w u u' : W) → v.file w fd ≡ none → SameBut fd w u → Closes fd u u' → Same w u'
  Same-close fd w u u' free but (gone, rest, same) n = elim (Bool-cases (n == fd)) [
    | inl e ↦
        let at : n ≡ fd = ground (arith, e) in
        subst (λ m. v.file u' m ≡ v.file w m) (sym at) (gone ∙ sym free)
    | inr e ↦ rest n (ground (arith, e)) ∙ but n (ground (arith, e))
  ]

  module _ (os : PtyOs W) (laws : PtyLaws os) where
    pub close-After : (fd : ℕ) (w : W) → After (λ x u. Closes fd w u) (call (os.close (pos fd)) w)
    close-After fd w = go (os.close (pos fd) w) (laws.closes fd w)
      where
        go :
            (r : Option (Unit {0}) × W)
            → Closes fd w r.1
            → After (λ x u. Closes fd w u) (raise_none r)
        go (none, u) h = tt
        go (some x, u) h = h

    -- What is opened and closed again leaves the table as it was.
    open-After :
        (name : Text) (flags : Flags) (other : Task W (Unit {0})) (w : W) (P : W → Type 0)
        → ((u u' : W) → Takes name flags w u → Steady u u' → P u')
        → After
            (λ x u. Same w u × P u)
            ((call (os.open_file name flags) >>= (λ fd. on_fd fd (call (os.close fd)) other)) w)
    open-After name flags other w P p = go (os.open_file name flags w) (laws.opens name flags w)
      where
        go :
            (r : Option ℤ × W)
            → Opens name flags w r
            → After
                (λ x u. Same w u × P u)
                (follow (raise_none r) (λ fd. on_fd fd (call (os.close fd)) other))
        go (none, u) h = tt
        go (some (negsuc n), u) h = absurd h
        go (some (pos fd), u) (free, but, takes) =
            After-impl (λ x u'. Closes fd u u') (λ x u'. Same w u' × P u')
              (call (os.close (pos fd)) u)
              (λ x u' c. (Same-close fd w u u' free but c, p u u' takes (c.2))) (close-After fd u)

    ttyname-After :
        (c : ℕ) (w : W)
        → After
            (λ name u. Same w u × (v.device name ≡ v.file w c) × Steady w u)
            (call (os.ttyname (pos c)) w)
    ttyname-After c w = go (os.ttyname (pos c) w) (laws.names c w)
      where
        go :
            (r : Option Text × W)
            → Names c w r
            → After (λ name u. Same w u × (v.device name ≡ v.file w c) × Steady w u) (raise_none r)
        go (none, u) h = tt
        go (some name, u) h = h

    setsid-After : (w : W) → After (λ x u. Leads w u) (call os.setsid w)
    setsid-After w = go (os.setsid w) (laws.leaves w)
      where
        go :
            (r : Option (Unit {0}) × W)
            → LeavesSession w r
            → After (λ x u. Leads w u) (raise_none r)
        go (none, u) h = tt
        go (some x, u) h = h

    -- Without a controlling terminal, the verification opens nothing.
    verify-After :
        (w : W)
        → v.controlling w ≡ none
        → v.leader w ≡ true
        → After (λ x u. Leads w u) (pass_over (verify_disconnected os w))
    verify-After w h l =
        go (os.open_file dev_tty rdwr_noctty w) (laws.no_tty w h) (laws.opens dev_tty rdwr_noctty w)
      where
        go :
            (r : Option ℤ × W)
            → r.0 ≡ none
            → Opens dev_tty rdwr_noctty w r
            → After
                (λ x u. Leads w u)
                (pass_over (
                  follow
                    (raise_none r)
                    (λ fd. on_fd fd (call (os.close fd) >> fail pexpect_error) (pure tt))))
        go (none, u) e (same, (c, k, calm)) = (same, c ∙ h, k ∙ l, calm)
        go (some fd, u) e q = absurd cc

    -- If the terminal controls no session: where `__pty_make_controlling_tty` returns, it is the controlling one,
    -- and the descriptors are as they were.
    pub pty_make_controlling_tty-Stands :
        (c : ℕ) (w : W) (slave : F)
        → v.file w c ≡ some slave
        → v.unowned w slave ≡ true
        → After (λ x u. Stands w (some slave) u) (pty_make_controlling_tty os (pos c) w)
    unfolding pty_make_controlling_tty
    pty_make_controlling_tty-Stands c w slave h free =
        let Done : Unit {0} → W → Type 0 = λ x u. Stands w (some slave) u in
        follow-After (λ name u. Same w u × (v.device name ≡ v.file w c) × Steady w u) Done
          (call (os.ttyname (pos c)) w) _ (ttyname-After c w)
          (λ name w1 (s1, d, (e1, l1, c1)).
            follow-After (λ x u. Same w1 u × Calm w1 u) Done _ _
              (open-After dev_tty rdwr_noctty (pure tt) w1 (Calm w1)
                (λ u u' t e f k. e.2 f (t.2 f k)))
              (λ x w2 (s2, c2).
                follow-After (λ x u. Leads w2 u) Done _ _ (setsid-After w2)
                  (λ x w3 (s3, n3, l3, c3).
                    follow-After (λ x u. Leads w3 u) Done (pass_over (verify_disconnected os w3)) _
                      (verify-After w3 n3 l3)
                      (λ x w4 (s4, n4, l4, c4).
                        follow-After (λ x u. Stands w4 (some slave) u) Done _ _
                          (open-After name rdwr (fail pexpect_error) w4
                            (λ u. v.controlling u ≡ some slave)
                            (λ u u' t e.
                              e.0
                              ∙ t.1 slave l4 n4 (d ∙ h)
                                  (c4 slave (c3 slave (c2 slave (c1 slave free))))))
                          (λ x w5 (s5, n5).
                            After-impl (λ x u. Stands w5 (some slave) u) Done _
                              (λ x w6 (s6, n6).
                                ((λ n. s6 n ∙ s5 n ∙ s4 n ∙ s3 n ∙ s2 n ∙ s1 n), n6))
                              (open-After dev_tty wronly (fail pexpect_error) w5
                                (λ u. v.controlling u ≡ some slave)
                                (λ u u' t e. e.0 ∙ t.0 (λ k. cc) ∙ n5)))))))
