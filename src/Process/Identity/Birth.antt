-- ===== src/Process/Identity/Birth.antt =====
-- What the constructor returns and raises.
use psutil.Prelude.{ℕ, false, none, some, ◌≡◌, ◌≢◌, arith, ok, err, Error}
use psutil.Prelude.Int.{pos}
use psutil.Platform.{Platform}
use psutil.Process.Defs.{Process, Kernel}
use psutil.Process.Identity.{init}

-- An object as its methods may rely on it.
pub record IsFresh (n : ℕ) (p : Process) : Type 0 where
  pub pid : p.pid ≡ n
  pub ident_pid : p.ident.pid ≡ n
  pub alive : p.gone ≡ false
  pub not_reused : p.pid_reused ≡ false
  pub unhashed : p.hash ≡ none

-- What `Process(n)` returns is an object of PID `n`, with an identity of PID `n`, that is not marked
-- as gone or reused. Access denied and zombies do not stop it.
pub init-IsFresh :
    (os : Platform) (k : Kernel) (n : ℕ) {p : Process}
    → init os k false (some (pos n)) ≡ ok p
    → IsFresh n p
unfolding init
init-IsFresh os k n h = ground arith

-- `Process(n)` never raises access denied nor the zombie error, whatever the kernel answers.
pub init_raises :
    (os : Platform) (k : Kernel) (n m : ℕ) {e : Error}
    → init os k false (some (pos n)) ≡ err e
    → (e ≢ Error.access_denied m) × (e ≢ Error.zombie_process m)
unfolding init
init_raises os k n m h = ground arith
