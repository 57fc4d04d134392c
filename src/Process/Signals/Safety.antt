-- ===== src/Process/Signals/Safety.antt =====
-- Which process a signal reaches.
use psutil.Prelude.{
  ℕ, Bool, true, false, some, ◌≡◌, ◌≢◌, ◌∷◌, arith, ok, err, Error, Result, not, if◌then◌else◌,
}
use psutil.Prelude.Int.{pos}
use psutil.Platform.{Platform, is_posix}
use psutil.Process.Defs.{Process, Kernel, World, Request, os_kill}
use psutil.Process.Identity.{init, eq}
use psutil.Process.Running.{raise_if_pid_reused}
use psutil.Process.Running.Verdict.{IsLive}
use psutil.Process.Signals.{send_signal, control}

-- Whether the PID that the object has belongs to a process that differs from it.
abbrev pub taken_by_other : Process → Result Process → Bool
taken_by_other p (ok other) = not (eq p other)
taken_by_other p (err e) = false

-- When the check passes, the PID has not been taken by another process.
pub raise_if_pid_reused-owner :
    (os : Platform) (k : Kernel) (w : World)
    → IsLive w
    → (raise_if_pid_reused os k w).0 ≡ ok tt
    → taken_by_other w.self (init os k false (some (pos w.pid))) ≡ false
unfolding raise_if_pid_reused
raise_if_pid_reused-owner os k w live passed = ground arith

pub requests-raise_if_pid_reused :
    (os : Platform) (k : Kernel) (w : World)
    → ((raise_if_pid_reused os k w).1.requests ≡ w.requests)
      × ((raise_if_pid_reused os k w).1.pid ≡ w.pid)
unfolding raise_if_pid_reused
requests-raise_if_pid_reused os k w = ground arith

-- A live object whose PID has another owner at the check makes no request at all.
pub send_signal_reused :
    (os : Platform) (k₁ k₂ k₃ : Kernel) (sig : ℕ) (w : World) (other : Process)
    → IsLive w
    → init os k₁ false (some (pos w.pid)) ≡ ok other
    → eq w.self other ≡ false
    → ((send_signal os k₁ k₂ k₃ sig w).0 ≡ err (Error.no_such_process w.pid))
      × ((send_signal os k₁ k₂ k₃ sig w).1.requests ≡ w.requests)
      × ((send_signal os k₁ k₂ k₃ sig w).1.pid_reused ≡ true)
unfolding send_signal raise_if_pid_reused
send_signal_reused os k₁ k₂ k₃ sig w other live found ne = ground arith

-- On POSIX a request that a live object makes is the one signal, to its own PID, which is not 0, and
-- when identity was checked the PID had no other owner.
pub send_signal-safe :
    (os : Platform) (k₁ k₂ k₃ : Kernel) (sig : ℕ) (w : World)
    → is_posix os ≡ true
    → IsLive w
    → (send_signal os k₁ k₂ k₃ sig w).1.requests ≢ w.requests
    → ((send_signal os k₁ k₂ k₃ sig w).1.requests ≡ (w.pid, os_kill sig) ∷ w.requests)
      × (w.pid ≢ 0)
      × (taken_by_other w.self (init os k₁ false (some (pos w.pid))) ≡ false)
unfolding send_signal
send_signal-safe os k₁ k₂ k₃ sig w posix live sent = (
  ground (arith, requests-raise_if_pid_reused os k₁ w),
  ground (arith, requests-raise_if_pid_reused os k₁ w),
  raise_if_pid_reused-owner os k₁ w live (ground (arith, requests-raise_if_pid_reused os k₁ w)),
)

-- The same of `suspend`, `resume`, `terminate` and `kill` on every platform: a live object makes at
-- most one request, to its own PID, and only if the PID had no other owner at the check.
pub control-safe :
    (os : Platform) (k k' : Kernel) (sig : ℕ) (r : Request) (w : World)
    → IsLive w
    → (control os k k' sig r w).1.requests ≢ w.requests
    → ((control os k k' sig r w).1.requests
        ≡ (w.pid, (if is_posix os then os_kill sig else r)) ∷ w.requests)
      × (taken_by_other w.self (init os k false (some (pos w.pid))) ≡ false)
unfolding control
control-safe os k k' sig r w live sent = (
  ground (arith, requests-raise_if_pid_reused os k w),
  raise_if_pid_reused-owner os k w live (ground (arith, requests-raise_if_pid_reused os k w)),
)
