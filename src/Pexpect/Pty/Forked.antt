-- ===== src/Pexpect/Pty/Forked.antt =====
-- pexpect-dpty/pexpect.py: the descriptors behind `__fork_pty`, in the parent and in the child.
use mathlib.Core.Path.{subst}
use cush.Prelude.{
  ℕ, zero, suc, ◌<◌, ◌≤◌, ◌≡◌, ◌≢◌, refl, sym, ap, ◌∙◌, inl, inr, Option, none, some, arith,
  Bool-cases, ◌==◌, true, false, if◌then◌else◌, ltb,
}
use cush.Prelude.Int.{ℤ, negsuc, pos, is_positive, ◌-ℤ◌}
use cush.Prelude.Text.{Text}
use cush.Pexpect.Process.{Reply, done, fails, os_error}
use cush.Pexpect.Pty.{
  PtyOs, Task, behind_fork, behind_open, call, dev_tty, dup_all, follow, fork_pty, child_part,
  pty_make_controlling_tty, raise_none, rdwr_noctty,
}
use cush.Pexpect.Pty.Descriptors.{
  After, After-impl, Closes, Dups, Forks, Names, OpensPty, PtyLaws, SameBut, Stands, View,
  close-After, follow-After, pty_make_controlling_tty-Stands,
}

module _ {W F : Type 0} (v : View W F) where
  -- The child: the standard descriptors are the terminal, which controls the process; the other descriptors are
  -- those from before, and the parent's side is closed.
  pub record IsChild (w : W) (parent_fd : ℕ) (w' : W) : Type 0 where
    pub slave : F
    pub standard : (n : ℕ) → n < 3 → v.file w' n ≡ some slave
    pub controls : v.controlling w' ≡ some slave
    pub others : (n : ℕ) → 3 ≤ n → v.file w' n ≡ v.file w n

  -- The parent: it holds the other side of the terminal, and nothing else that it did not hold before.
  pub record IsParent (w : W) (parent_fd : ℕ) (w' : W) : Type 0 where
    pub master : F
    pub opened : v.file w' parent_fd ≡ some master
    pub was_free : v.file w parent_fd ≡ none
    pub others : (n : ℕ) → n ≢ parent_fd → v.file w' n ≡ v.file w n

  abbrev pub IsForked : W → ℤ × ℤ → W → Type 0
  IsForked w (pos zero, pos fd) w' = IsChild w fd w'
  IsForked w (pos (suc pid), pos fd) w' = IsParent w fd w'
  IsForked w _ w' = ⊥

  module _ (os : PtyOs W) (laws : PtyLaws v os) where
    dup2-After :
        (a b : ℕ) (w : W)
        → After v
            (λ x u.
              (v.file u b ≡ v.file w a) × SameBut v b w u × (v.controlling u ≡ v.controlling w))
            (call (os.dup2 (pos a) (pos b)) w)
    dup2-After a b w = go (os.dup2 (pos a) (pos b) w) (laws.dups a b w)
      where
        go :
            (r : Option (Unit {0}) × W)
            → Dups v a b w r
            → After v
                (λ x u.
                  (v.file u b ≡ v.file w a) × SameBut v b w u × (v.controlling u ≡ v.controlling w))
                (raise_none r)
        go (none, u) h = tt
        go (some x, u) h = h

    -- The child's descriptor and the first ones are the terminal, and the others are as they were.
    pub record Copied (c : ℕ) (slave : F) (k : ℕ) (w u : W) : Type 0 where
      pub source : v.file u c ≡ some slave
      pub copies : (n : ℕ) → n < k → v.file u n ≡ some slave
      pub rest : (n : ℕ) → 3 ≤ n → v.file u n ≡ v.file w n
      pub tty : v.controlling u ≡ some slave

    dup2-Copied :
        (c : ℕ) (slave : F) (k : ℕ) (w u : W)
        → k < 3
        → Copied c slave k w u
        → After v (λ x u'. Copied c slave (suc k) w u') (call (os.dup2 (pos c) (pos k)) u)
    dup2-Copied c slave k w u l q =
        After-impl v _ (λ x u'. Copied c slave (suc k) w u') _ step (dup2-After c k u)
      where
        step :
            (x : Unit {0}) (u' : W)
            → (v.file u' k ≡ v.file u c) × SameBut v k u u' × (v.controlling u' ≡ v.controlling u)
            → Copied c slave (suc k) w u'
        step x u' (at, but, same) =
            let still : (n : ℕ) → v.file u n ≡ some slave → v.file u' n ≡ some slave = λ n h.
              elim (Bool-cases (n == k)) [
                | inl e ↦
                    let m : n ≡ k = ground (arith, e) in
                    subst (λ j. v.file u' j ≡ some slave) (sym m) (at ∙ q.source)
                | inr e ↦ but n (ground (arith, e)) ∙ h
              ] in
            record {
              source = still c q.source;
              copies = λ n h. elim (Bool-cases (n == k)) [
                | inl e ↦
                    let m : n ≡ k = ground (arith, e) in
                    subst (λ j. v.file u' j ≡ some slave) (sym m) (at ∙ q.source)
                | inr e ↦ still n (q.copies n (ground (arith, e, h)))
              ];
              rest = λ n h. but n (ground (arith, h, l)) ∙ q.rest n h;
              tty = same ∙ q.tty;
            }

    -- As copied, but the child's own descriptor is closed.
    pub record Set (c : ℕ) (slave : F) (w u : W) : Type 0 where
      pub standard : (n : ℕ) → n < 3 → v.file u n ≡ some slave
      pub gone : 3 ≤ c → v.file u c ≡ none
      pub left : (n : ℕ) → 3 ≤ n → n ≢ c → v.file u n ≡ v.file w n
      pub control : v.controlling u ≡ some slave

    above : (c : ℕ) → is_positive (pos c -ℤ pos 2) ≡ ltb 2 c
    above c = ground arith

    close-Set :
        (c : ℕ) (slave : F) (w u : W)
        → Copied c slave 3 w u
        → After v
            (λ x u'. Set c slave w u')
            (if is_positive (pos c -ℤ pos 2) then call (os.close (pos c)) u else (done tt, u))
    close-Set c slave w u q = rw (above c) (elim (Bool-cases (ltb 2 c)) [
      | inl e ↦ rw e (
          After-impl v _ (λ x u'. Set c slave w u') _
            (λ x u' (free, but, same). record {
              standard = λ n h. but n (ground (arith, e, h)) ∙ q.copies n h;
              gone = λ h. free;
              left = λ n h d. but n d ∙ q.rest n h;
              control = same.0 ∙ q.tty;
            })
            (close-After v os laws c u))
      | inr e ↦ rw e (record {
        standard = q.copies;
        gone = λ h. absurd (ground (arith, e, h));
        left = λ n h d. q.rest n h;
        control = q.tty;
      })
    ])

    dup_all-Set :
        (c : ℕ) (slave : F) (w u : W)
        → Copied c slave 0 w u
        → After v (λ x u'. Set c slave w u') (dup_all os (pos c) u)
    dup_all-Set c slave w u q =
        let Done : Unit {0} → W → Type 0 = λ x u'. Set c slave w u' in
        follow-After v (λ x u1. Copied c slave 1 w u1) Done _ _
          (dup2-Copied c slave 0 w u (omega arith) q)
          (λ x u1 q1.
            follow-After v (λ x u2. Copied c slave 2 w u2) Done _ _
              (dup2-Copied c slave 1 w u1 (omega arith) q1)
              (λ x u2 q2.
                follow-After v (λ x u3. Copied c slave 3 w u3) Done _ _
                  (dup2-Copied c slave 2 w u2 (omega arith) q2)
                  (λ x u3 q3. close-Set c slave w u3 q3)))

    -- The world behind `os.openpty`, and then behind the fork.
    pub record Paired (p c : ℕ) (master slave : F) (w u : W) : Type 0 where
      pub apart : p ≢ c
      pub parent_free : v.file w p ≡ none
      pub child_free : v.file w c ≡ none
      pub kept : (n : ℕ) → n ≢ p → n ≢ c → v.file u n ≡ v.file w n
      pub parent_side : v.file u p ≡ some master
      pub child_side : v.file u c ≡ some slave
      pub child_unowned : v.unowned u slave ≡ true

    child_part-IsChild :
        (p c : ℕ) (master slave : F) (w u : W)
        → Paired p c master slave w u
        → After v (λ x u'. IsChild w p u') (child_part os (pos p) (pos c) u)
    child_part-IsChild p c master slave w u q =
        let Done : Unit {0} → W → Type 0 = λ x u'. IsChild w p u' in
        follow-After v (λ x u1. Closes v p u u1) Done _ _ (close-After v os laws p u)
          (λ x u1 (gone, but, same).
            let side : v.file u1 c ≡ some slave = but c (λ e. q.apart (sym e)) ∙ q.child_side in
            follow-After v (λ x u2. Stands v u1 (some slave) u2) Done _ _
              (pty_make_controlling_tty-Stands v os laws c u1 slave side
                (same.2 slave q.child_unowned))
              (λ x u2 (s, t).
                After-impl v (λ x u3. Set c slave u1 u3) Done _
                  (λ x u3 k. record {
                    slave = slave;
                    standard = k.standard;
                    controls = k.control;
                    others = λ n h. elim (Bool-cases (n == c)) [
                      | inl e ↦
                          let m : n ≡ c = ground (arith, e) in
                          subst (λ j. v.file u3 j ≡ v.file w j) (sym m)
                            (k.gone (omega (arith, h, m)) ∙ sym q.child_free)
                      | inr e ↦
                          let d : n ≢ c = ground (arith, e) in
                          k.left n h d ∙ parent_or_not n d u1 gone but
                    ];
                  })
                  (dup_all-Set c slave u1 u2 (record {
                    source = s c ∙ side;
                    copies = λ n h. absurd (omega (arith, h));
                    rest = λ n h. s n;
                    tty = t;
                  }))))
      where
        parent_or_not :
            (n : ℕ)
            → n ≢ c
            → (u1 : W) → v.file u1 p ≡ none
            → SameBut v p u u1
            → v.file u1 n ≡ v.file w n
        parent_or_not n d u1 gone but = elim (Bool-cases (n == p)) [
          | inl e ↦
              let m : n ≡ p = ground (arith, e) in
              subst (λ j. v.file u1 j ≡ v.file w j) (sym m) (gone ∙ sym q.parent_free)
          | inr e ↦ but n (ground (arith, e)) ∙ q.kept n (ground (arith, e)) d
        ]

    close-IsParent :
        (p c : ℕ) (master slave : F) (w u u' : W)
        → Paired p c master slave w u
        → Closes v c u u'
        → IsParent w p u'
    close-IsParent p c master slave w u u' q (gone, but, same) = record {
      master = master;
      opened = but p q.apart ∙ q.parent_side;
      was_free = q.parent_free;
      others = λ n h. elim (Bool-cases (n == c)) [
        | inl e ↦
            let m : n ≡ c = ground (arith, e) in
            subst (λ j. v.file u' j ≡ v.file w j) (sym m) (gone ∙ sym q.child_free)
        | inr e ↦ let d : n ≢ c = ground (arith, e) in but n d ∙ q.kept n h d
      ];
    }

    behind_fork-IsForked :
        (p c : ℕ) (master slave : F) (w u : W) (pid : ℕ)
        → Paired p c master slave w u
        → After v (IsForked w) (behind_fork os (pos p) (pos c) (pos pid) u)
    behind_fork-IsForked p c master slave w u zero q =
        follow-After v (λ x u'. IsChild w p u') (IsForked w) _ _
          (child_part-IsChild p c master slave w u q) (λ x u' k. k)
    behind_fork-IsForked p c master slave w u (suc pid) q =
        let other : (suc pid == 0) ≡ false = ground arith in
        rw other (
          follow-After v (λ x u'. Closes v c u u') (IsForked w) _ _ (close-After v os laws c u)
            (λ x u' k. close-IsParent p c master slave w u u' q k))

    fork-IsForked :
        (p c : ℕ) (master slave : F) (w u : W)
        → Paired p c master slave w u
        → (r : Option ℤ × W) → Forks v u r
        → After v (IsForked w) (follow (raise_none r) (behind_fork os (pos p) (pos c)))
    fork-IsForked p c master slave w u q (none, u') h = tt
    fork-IsForked p c master slave w u q (some (negsuc n), u') h = absurd h
    fork-IsForked p c master slave w u q (some (pos pid), u') (h, calm) =
        behind_fork-IsForked p c master slave w u' pid (record {
          apart = q.apart;
          parent_free = q.parent_free;
          child_free = q.child_free;
          kept = λ n d e. h n ∙ q.kept n d e;
          parent_side = h p ∙ q.parent_side;
          child_side = h c ∙ q.child_side;
          child_unowned = calm slave q.child_unowned;
        })

    open-IsForked :
        (w : W) (r : Option (ℤ × ℤ) × W)
        → OpensPty v w r
        → After v (IsForked w) (follow (raise_none r) (behind_open os))
    open-IsForked w (none, u) h = tt
    open-IsForked w (some (negsuc p, c), u) h = absurd h
    open-IsForked w (some (pos p, negsuc c), u) h = absurd h
    open-IsForked w (some (pos p, pos c), u) (d, pf, cf, k, (master, ps), (slave, cs, free)) =
        fork-IsForked p c master slave w u
          (record {
            apart = d;
            parent_free = pf;
            child_free = cf;
            kept = k;
            parent_side = ps;
            child_side = cs;
            child_unowned = free;
          })
          (os.fork u) (laws.forks u)

    -- `__fork_pty` may raise an OSError and no other exception. Where it returns in the child, the three standard
    -- descriptors are the new terminal, which controls the process, and where it returns in the parent, the
    -- descriptor that it gives, which was free, is the terminal's other side; all other descriptors are as they
    -- were before the call.
    pub fork_pty-IsForked : (w : W) → After v (IsForked w) (fork_pty os w)
    unfolding fork_pty
    fork_pty-IsForked w = open-IsForked w (os.openpty w) (laws.opens_pty w)

    follow-fails :
        {A B : Type 0} (r : Reply A × W) (f : A → Task W B)
        → r.0 ≡ fails os_error
        → (follow r f).0 ≡ fails os_error
    follow-fails (done a, u) f h = absurd cc
    follow-fails (fails e, u) f h = let k : e ≡ os_error = cc in ap fails k

    call-fails : {A : Type 0} (r : Option A × W) → r.0 ≡ none → (raise_none r).0 ≡ fails os_error
    call-fails (none, u) h = refl
    call-fails (some a, u) h = absurd cc

    named-fails :
        {A : Type 0} (r : Option A × W) (f : A → Task W (Unit {0}))
        → ((a : A) → (f a r.1).0 ≡ fails os_error)
        → (follow (raise_none r) f).0 ≡ fails os_error
    named-fails (none, u) f h = refl
    named-fails (some a, u) f h = h a

    -- In a process without a controlling terminal, `__pty_make_controlling_tty` raises an OSError.
    pub pty_make_controlling_tty_raises :
        (c : ℕ) (w : W)
        → v.controlling w ≡ none
        → (pty_make_controlling_tty os (pos c) w).0 ≡ fails os_error
    unfolding pty_make_controlling_tty
    pty_make_controlling_tty_raises c w h =
        let u : W = (os.ttyname (pos c) w).1 in
        named-fails (os.ttyname (pos c) w) _ (λ name. follow-fails _ _ (
          follow-fails (call (os.open_file dev_tty rdwr_noctty) u) _ (
            call-fails (os.open_file dev_tty rdwr_noctty u)
              (laws.no_tty u (same (os.ttyname (pos c) w) (laws.names c w) ∙ h)))))
      where
        same : (r : Option Text × W) → Names v c w r → v.controlling r.1 ≡ v.controlling w
        same (none, u) (s, k) = k.0
        same (some name, u) (s, d, k) = k.0
