-- ===== src/Process/Signals/Hole.antt =====
-- An object that was found gone is not checked again, so a signal reaches whoever has its PID now.
use psutil.Prelude.{ℕ, true, false, some, ◌≡◌, ◌≢◌, ◌∷◌, arith, ok, err, Error}
use psutil.Prelude.Int.{pos}
use psutil.Platform.{Platform, is_posix}
use psutil.Process.Defs.{Process, Kernel, World, os_kill}
use psutil.Process.Identity.{init, eq}
use psutil.Process.Running.{is_running, raise_if_pid_reused}
use psutil.Process.Running.Verdict.{IsLive}
use psutil.Process.Signals.{send_signal}

-- A live object is asked whether it runs when its process has ended, and answers no. If its PID then
-- goes to another process, which compares unequal to the object, a signal is sent to that process:
-- the check before the signal does not look at the kernel again.
pub gone_then_reused :
    (os : Platform) (k₀ k₁ k₂ k₃ : Kernel) (sig n : ℕ) (w : World) (other : Process)
    → is_posix os ≡ true
    → IsLive w
    → w.pid ≢ 0
    → init os k₀ false (some (pos w.pid)) ≡ err (Error.no_such_process n)
    → init os k₁ false (some (pos w.pid)) ≡ ok other
    → eq w.self other ≡ false
    → ((is_running os k₀ w).0 ≡ ok false)
      × ((send_signal os k₁ k₂ k₃ sig (is_running os k₀ w).1).1.requests
          ≡ (w.pid, os_kill sig) ∷ w.requests)
unfolding is_running raise_if_pid_reused send_signal
gone_then_reused os k₀ k₁ k₂ k₃ sig n w other posix live ne ended found differs = ground arith
