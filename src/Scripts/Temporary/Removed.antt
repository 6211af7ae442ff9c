-- ===== src/Scripts/Temporary/Removed.antt =====
-- tests/advanced/multiple_pipes.py and tests/advanced/single_pipe_test_stderr.py: what becomes of their temporary
-- files.
use cush.Prelude.{ℕ, ◌≡◌, refl, Bool, false, Option, none, some, []}
use cush.Prelude.Text.{Text}
use cush.Testutils.{Tested, assertion_fails, expect_raises, other_error, still_waits, tested}
use cush.Testutils.Session.{Harness, Session, Test, expect_prompt, follow, ◌>>◌}
use cush.Testutils.Temporary.{
  Errno, FileOs, after_finally, end_try, enoent, other_errno, put_world, removed, removefile,
  try_finally,
}
use cush.Scripts.Temporary.{
  multiple_pipes, pipes_body, program, stderr_body, try_program, with_program,
}

module _ {W : Type 0} (exists : W → Text → Bool) where
  abbrev pub Unlinks : Text → W → Option Errno × W → Type 0
  Unlinks name w (some other_errno, w') = ⊥
  Unlinks name w (_, w') = exists w' name ≡ false

  -- The file can be removed, if it is there.
  abbrev pub Removable : FileOs W → Text → Type 0
  Removable os name = (w : W) → Unlinks name w (os.unlink name w)

  module _ {M : Type 0} where
    -- At the end of a test, and as long as it waits nothing is said, the file is not there.
    abbrev pub IsRemoved : {A : Type 0} → Text → Tested A × Session W M → Type 0
    IsRemoved name (still_waits, s) = Unit
    IsRemoved name (r, s) = exists (s.link.1) name ≡ false

    ended-IsRemoved :
        {A : Type 0} (name : Text) (r : Tested A) (s : Session W M)
        → exists (s.link.1) name ≡ false
        → IsRemoved name (r, s)
    ended-IsRemoved name (tested a) s h = h
    ended-IsRemoved name (expect_raises e) s h = h
    ended-IsRemoved name assertion_fails s h = h
    ended-IsRemoved name other_error s h = h
    ended-IsRemoved name still_waits s h = tt

    module _ (os : FileOs W) (name : Text) (removable : Removable os name) where
      removed-IsRemoved :
          {A : Type 0} (r : Tested A) (s : Session W M) (u : Option Errno × W)
          → Unlinks name (s.link.1) u
          → IsRemoved name (after_finally r (put_world s (removed u)))
      removed-IsRemoved r s (none, w) h = ended-IsRemoved name r _ h
      removed-IsRemoved r s (some enoent, w) h = ended-IsRemoved name r _ h
      removed-IsRemoved r s (some other_errno, w) h = absurd h

      end_try-IsRemoved :
          {A : Type 0} (r : Tested A × Session W M)
          → IsRemoved name (end_try (removefile os name) r)
      unfolding removefile
      end_try-IsRemoved (still_waits, s) = tt
      end_try-IsRemoved (tested a, s) =
          removed-IsRemoved (tested a) s (os.unlink name (s.link.1)) (removable (s.link.1))
      end_try-IsRemoved {A} (expect_raises e, s) =
          removed-IsRemoved {A = A} (expect_raises e) s (os.unlink name (s.link.1))
            (removable (s.link.1))
      end_try-IsRemoved {A} (assertion_fails, s) =
          removed-IsRemoved {A = A} assertion_fails s (os.unlink name (s.link.1))
            (removable (s.link.1))
      end_try-IsRemoved {A} (other_error, s) =
          removed-IsRemoved {A = A} other_error s (os.unlink name (s.link.1)) (removable (s.link.1))

      success-IsRemoved :
          (r : Tested (Unit {0}) × Session W M)
          → IsRemoved name r
          → IsRemoved name (follow r (λ a s. (tested (tt {0}), s)))
      success-IsRemoved (tested a, s) h = h
      success-IsRemoved (expect_raises e, s) h = h
      success-IsRemoved (assertion_fails, s) h = h
      success-IsRemoved (other_error, s) h = h
      success-IsRemoved (still_waits, s) h = h

    -- The removal of two files, of which the first does not come back.
    module _ (os : FileOs W) (exe name : Text) (first : Removable os exe)
        (second : Removable os name)
        (apart : (w : W) → exists w exe ≡ false → exists ((os.unlink name w).1) exe ≡ false) where
      abbrev both : Test W M (Unit {0})
      both = removefile os exe >> removefile os name

      then-IsRemoved :
          {A : Type 0} (r : Tested A) (s : Session W M) (u : Option Errno × W)
          → Unlinks name (s.link.1) u
          → exists (u.1) exe ≡ false
          → IsRemoved exe (after_finally r (put_world s (removed u)))
            × IsRemoved name (after_finally r (put_world s (removed u)))
      then-IsRemoved r s (none, w) h k = (ended-IsRemoved exe r _ k, ended-IsRemoved name r _ h)
      then-IsRemoved r s (some enoent, w) h k =
          (ended-IsRemoved exe r _ k, ended-IsRemoved name r _ h)
      then-IsRemoved r s (some other_errno, w) h k = absurd h

      both-IsRemoved :
          {A : Type 0} (r : Tested A) (s : Session W M) (u : Option Errno × W)
          → Unlinks exe (s.link.1) u
          → (let x = after_finally r (follow (put_world s (removed u)) (λ a. removefile os name)) in
              IsRemoved exe x × IsRemoved name x)
      unfolding removefile
      both-IsRemoved r s (none, w) h =
          then-IsRemoved r (record s { link = (s.link.0, w) }) (os.unlink name w) (second w)
            (apart w h)
      both-IsRemoved r s (some enoent, w) h =
          then-IsRemoved r (record s { link = (s.link.0, w) }) (os.unlink name w) (second w)
            (apart w h)
      both-IsRemoved r s (some other_errno, w) h = absurd h

      end_try-both :
          {A : Type 0} (r : Tested A × Session W M)
          → IsRemoved exe (end_try both r) × IsRemoved name (end_try both r)
      unfolding removefile
      end_try-both (still_waits, s) = (tt, tt)
      end_try-both (tested a, s) =
          both-IsRemoved (tested a) s (os.unlink exe (s.link.1)) (first (s.link.1))
      end_try-both {A} (expect_raises e, s) =
          both-IsRemoved {A = A} (expect_raises e) s (os.unlink exe (s.link.1)) (first (s.link.1))
      end_try-both {A} (assertion_fails, s) =
          both-IsRemoved {A = A} assertion_fails s (os.unlink exe (s.link.1)) (first (s.link.1))
      end_try-both {A} (other_error, s) =
          both-IsRemoved {A = A} other_error s (os.unlink exe (s.link.1)) (first (s.link.1))

  module _ {R M : Type 0} (h : Harness R W M) (os : FileOs W) where
    -- Where the prompt comes and the temporary file is made and can be removed: however `multiple_pipes.py` ends,
    -- by success, a failed expectation or an exception, the file is gone.
    pub multiple_pipes-IsRemoved :
        (s s' : Session W M) (fd : ℕ) (name : Text) (w : W)
        → Removable os name
        → expect_prompt h s ≡ (tested tt, s')
        → os.mkstemp [] (s'.link.1) ≡ (some (fd, name), w)
        → IsRemoved name (multiple_pipes h os s)
    unfolding multiple_pipes
    multiple_pipes-IsRemoved s s' fd name w removable e m =
        rw (e, m)
          (success-IsRemoved os name removable
            (try_finally (pipes_body h os fd name) (removefile os name)
              (record s' { link = (s'.link.0, w) }))
            (end_try-IsRemoved os name removable
              (pipes_body h os fd name (record s' { link = (s'.link.0, w) }))))

    -- How the try statement of `single_pipe_test_stderr.py` ends, from whether there is a program.
    abbrev pub IsCleaned :
        Text → Tested Text × Session W M → Tested (Unit {0}) × Session W M → Type 0
    IsCleaned name (tested exe, s) r = IsRemoved exe r × IsRemoved name r
    IsCleaned name (still_waits, s) r = r ≡ (still_waits, s)
    IsCleaned name (_, s) r = r ≡ (other_error, s)

    try_program-IsCleaned :
        (name : Text) (p : Tested Text × Session W M)
        → ((n : Text) → Removable os n)
        → ((n other : Text) (w : W)
            → exists w other ≡ false
            → exists ((os.unlink n w).1) other ≡ false)
        → IsCleaned name p (try_program h os name p)
    try_program-IsCleaned name (tested exe, s) removable apart =
        end_try-both os exe name (removable exe) (removable name) (apart name exe)
          (stderr_body h os exe name s)
    try_program-IsCleaned name (still_waits, s) removable apart = refl
    try_program-IsCleaned name (expect_raises e, s) removable apart = refl
    try_program-IsCleaned name (assertion_fails, s) removable apart = refl
    try_program-IsCleaned name (other_error, s) removable apart = refl

    -- If files can be removed and a removal makes no other file: where `make_test_program` gives a program, the try
    -- statement of `single_pipe_test_stderr.py` ends with the program and the temporary file gone, however its body
    -- ends. Where it raises, the statement ends in another error, and in the session as it was then: the temporary
    -- file is not removed.
    pub with_program-IsCleaned :
        (source name : Text) (s : Session W M)
        → ((n : Text) → Removable os n)
        → ((n other : Text) (w : W)
            → exists w other ≡ false
            → exists ((os.unlink n w).1) other ≡ false)
        → IsCleaned name (program os source s) (with_program h os source name s)
    with_program-IsCleaned source name s = try_program-IsCleaned name (program os source s)
