-- ===== src/Pexpect/Pty/Tests.antt =====
-- `__fork_pty` on a small system.
use cush.Prelude.{
  ℕ, ◌≡◌, refl, sym, ◌∙◌, Bool, true, false, ◌==◌, if◌then◌else◌, Option, none, some, [], ◌∷◌,
  arith,
}
use cush.Prelude.Int.{ℤ, negsuc, pos}
use cush.Prelude.Text.{Text, text_eq}
use cush.Pexpect.Process.{done, fails, os_error}
use cush.Pexpect.Pty.{
  Flags, PtyOs, dev_tty, fork_pty, pty_make_controlling_tty, rdwr, rdwr_noctty, wronly,
}
use cush.Pexpect.Pty.Descriptors.{After, Names, Opens, OpensPty, PtyLaws, SameBut, Takes, View}
use cush.Pexpect.Pty.Forked.{IsForked, fork_pty-IsForked, pty_make_controlling_tty_raises}

-- Files are numbers, and a name is a list with the number of its file.
pub record World : Type 0 where
  pub files : ℕ → Option ℕ
  pub terminal : Option ℕ
  pub leads : Bool

abbrev put : ℕ → Option ℕ → World → World
put k x w = record w { files = λ n. if n == k then x else w.files n }

abbrev open_pair : World → Option ℕ → Option ℕ → Option (ℤ × ℤ) × World
open_pair w none none = (some (pos 7, pos 8), put 7 (some 70) (put 8 (some 80) w))
open_pair w none (some y) = (none, w)
open_pair w (some x) y = (none, w)

abbrev named_file : Text → Option ℕ
named_file [] = none
named_file (f ∷ t) = some f

abbrev name_of : World → Option ℕ → Option Text × World
name_of w none = (none, w)
name_of w (some f) = (some (f ∷ []), w)

abbrev take_terminal : Text → Flags → Bool → Option ℕ → Option ℕ
take_terminal name rdwr_noctty leads c = c
take_terminal name _ leads (some c) = some c
take_terminal name _ true none = named_file name
take_terminal name _ false none = none

-- The name of the controlling terminal cannot be opened where there is none, and only descriptor 9 is used.
abbrev open_nine : Text → Flags → World → Option ℕ → Bool → Option ℕ → Option ℤ × World
open_nine name flags w (some x) tty c = (none, w)
open_nine name flags w none true none = (none, w)
open_nine name flags w none tty c =
    (some (pos 9), record (put 9 (some 90) w) { terminal = take_terminal name flags w.leads c })

abbrev system : ℤ → PtyOs World
system pid = record {
  openpty = λ w. open_pair w (w.files 7) (w.files 8);
  fork = λ w. (some pid, w);
  close = close;
  dup2 = dup2;
  ttyname = ttyname;
  open_file = λ name flags w. open_nine name flags w (w.files 9) (text_eq name dev_tty) w.terminal;
  setsid = λ w. (some tt, record w { terminal = none; leads = true });
}
  where
    close : ℤ → World → Option (Unit {0}) × World
    close (pos n) w = (some tt, put n none w)
    close (negsuc n) w = (none, w)

    dup2 : ℤ → ℤ → World → Option (Unit {0}) × World
    dup2 (pos a) (pos b) w = (some tt, put b (w.files a) w)
    dup2 _ _ w = (none, w)

    ttyname : ℤ → World → Option Text × World
    ttyname (pos n) w = name_of w (w.files n)
    ttyname (negsuc n) w = (none, w)

abbrev view : View World ℕ
view = record {
  file = λ w. w.files;
  controlling = λ w. w.terminal;
  leader = λ w. w.leads;
  unowned = λ w f. true;
  device = named_file;
}

put-at : (k : ℕ) (x : Option ℕ) (w : World) → (put k x w).files k ≡ x
put-at k x w = let same : (k == k) ≡ true = ground arith in rw same refl

put-SameBut : (k : ℕ) (x : Option ℕ) (w : World) → SameBut view k w (put k x w)
put-SameBut k x w n d = let other : (n == k) ≡ false = ground arith in rw other refl

open_pair-OpensPty :
    (w : World) (a b : Option ℕ) → w.files 7 ≡ a → w.files 8 ≡ b → OpensPty view w (open_pair w a b)
open_pair-OpensPty w none none h k = (
  omega arith,
  h,
  k,
  λ n d e. put-SameBut 7 (some 70) (put 8 (some 80) w) n d ∙ put-SameBut 8 (some 80) w n e,
  (70, refl),
  (80, refl, refl),
)
open_pair-OpensPty w none (some y) h k = λ n. refl
open_pair-OpensPty w (some x) b h k = λ n. refl

take_terminal-Takes :
    (name : Text) (flags : Flags) (w : World) (leads : Bool) (c : Option ℕ)
    → w.leads ≡ leads
    → w.terminal ≡ c
    → Takes view name flags w
        (record (put 9 (some 90) w) { terminal = take_terminal name flags leads c })
take_terminal-Takes name rdwr_noctty w l c k h = (sym h, refl, λ f e. e)
take_terminal-Takes name rdwr w l (some c) k h = (λ d. sym h, λ f a e. absurd cc)
take_terminal-Takes name wronly w l (some c) k h = (λ d. sym h, λ f a e. absurd cc)
take_terminal-Takes name rdwr w true none k h = (λ d. absurd (d h), λ f a e g u. g)
take_terminal-Takes name wronly w true none k h = (λ d. absurd (d h), λ f a e g u. g)
take_terminal-Takes name rdwr w false none k h = (λ d. absurd (d h), λ f a. absurd cc)
take_terminal-Takes name wronly w false none k h = (λ d. absurd (d h), λ f a. absurd cc)

open_nine-Opens :
    (name : Text) (flags : Flags) (w : World) (a : Option ℕ) (tty : Bool) (c : Option ℕ)
    → w.files 9 ≡ a
    → w.terminal ≡ c
    → Opens view name flags w (open_nine name flags w a tty c)
open_nine-Opens name flags w none true none h k = ((λ n. refl), (refl, refl, λ f e. e))
open_nine-Opens name flags w none true (some c) h k =
    (h, put-SameBut 9 (some 90) w, take_terminal-Takes name flags w w.leads (some c) refl k)
open_nine-Opens name flags w (some x) true c h k = ((λ n. refl), (refl, refl, λ f e. e))
open_nine-Opens name flags w none false c h k =
    (h, put-SameBut 9 (some 90) w, take_terminal-Takes name flags w w.leads c refl k)
open_nine-Opens name flags w (some x) false c h k = ((λ n. refl), (refl, refl, λ f e. e))

system-PtyLaws : (pid : ℕ) → PtyLaws view (system (pos pid))
system-PtyLaws pid = record {
  opens_pty = λ w. open_pair-OpensPty w (w.files 7) (w.files 8) refl refl;
  forks = λ w. ((λ n. refl), λ f e. e);
  opens = λ name flags w.
      open_nine-Opens name flags w (w.files 9) (text_eq name dev_tty) w.terminal refl refl;
  no_tty = λ w h. none_opened w (w.files 9) w.terminal h;
  names = λ fd w. name_of-Names fd w (w.files fd) refl;
  leaves = λ w. ((λ n. refl), refl, refl, λ f e. e);
  dups = λ a b w. (put-at b (w.files a) w, put-SameBut b (w.files a) w, refl);
  closes = λ fd w. (put-at fd none w, put-SameBut fd none w, (refl, refl, λ f e. e));
}
  where
    none_opened :
        (w : World) (x c : Option ℕ)
        → c ≡ none
        → (open_nine dev_tty rdwr_noctty w x true c).0 ≡ none
    none_opened w none none h = refl
    none_opened w none (some c) h = absurd cc
    none_opened w (some x) c h = refl

    name_of-Names :
        (fd : ℕ) (w : World) (o : Option ℕ) → w.files fd ≡ o → Names view fd w (name_of w o)
    name_of-Names fd w none h = ((λ n. refl), (refl, refl, λ f e. e))
    name_of-Names fd w (some f) h = ((λ n. refl), sym h, (refl, refl, λ f e. e))

-- A process with the standard descriptors and a terminal.
abbrev started : World
started = record {
  files = λ n. if n == 0 then some 10 else none;
  terminal = some 10;
  leads = false;
}

fork_pty-IsForked_example : After view (IsForked view started) (fork_pty (system (pos 0)) started)
fork_pty-IsForked_example = fork_pty-IsForked view (system (pos 0)) (system-PtyLaws 0) started

test_fork_pty_child : (fork_pty (system (pos 0)) started).0 ≡ done (pos 0, pos 7)
unfolding fork_pty
test_fork_pty_child = refl

test_fork_pty_parent : (fork_pty (system (pos 42)) started).0 ≡ done (pos 42, pos 7)
unfolding fork_pty
test_fork_pty_parent = refl

test_pty_make_controlling_tty_raises :
    (pty_make_controlling_tty (system (pos 0)) (pos 0) (record started { terminal = none })).0
    ≡ fails os_error
test_pty_make_controlling_tty_raises =
    pty_make_controlling_tty_raises view (system (pos 0)) (system-PtyLaws 0) 0
      (record started { terminal = none }) refl
