-- ===== src/Process/Running/Verdict.antt =====
-- What `is_running` answers, what it leaves in the object, and that "no" is final.
use psutil.Prelude.{
  true, false, some, ◌≡◌, ◌≢◌, ◌↔◌, refl, arith, ok, err, Error, Result-cases, inl, inr,
}
use psutil.Prelude.Int.{pos}
use psutil.Platform.{Platform}
use psutil.Process.Defs.{Process, Kernel, World}
use psutil.Process.Identity.{init, eq}
use psutil.Process.Identity.Birth.{init_raises}
use psutil.Process.Running.{is_running, raise_if_pid_reused, add}

-- An object that is still taken for running: neither mark is set.
abbrev pub IsLive : World → Type 0
IsLive w = (w.gone ≡ false) × (w.pid_reused ≡ false)

not_running_of_err :
    (os : Platform) (k : Kernel) (w : World) (e : Error)
    → IsLive w
    → init os k false (some (pos w.pid)) ≡ err e
    → (is_running os k w).0 ≢ ok true
unfolding is_running
not_running_of_err os k w (Error.zombie_process m) live h =
    absurd ((init_raises os k w.pid m h).1 refl)
not_running_of_err os k w _ live h = ground arith

-- A live object is reported as running exactly when its PID can be queried and the process that
-- now has it compares equal to the object.
pub is_running_iff :
    (os : Platform) (k : Kernel) (w : World)
    → IsLive w
    → ((is_running os k w).0 ≡ ok true) ↔ (
        (other : Process) × (init os k false (some (pos w.pid)) ≡ ok other)
        × (eq w.self other ≡ true))
unfolding is_running
is_running_iff os k w live = elim (Result-cases (init os k false (some (pos w.pid)))) [
  | inl (other, found) ↦ (λ h. (other, found, ground arith), λ (other', found', same). ground arith)
  | inr (e, raised) ↦
      (λ h. absurd (not_running_of_err os k w e live raised h), λ (other', found', same). cc)
]

-- Once it has answered "no", the object answers "no" at any later moment, with no further effect.
pub is_running_final :
    (os : Platform) (k k' : Kernel) (w : World)
    → (is_running os k w).0 ≡ ok false
    → is_running os k' (is_running os k w).1 ≡ (ok false, (is_running os k w).1)
unfolding is_running
is_running_final os k k' w done = ground arith

-- A live object whose PID now belongs to a process that differs is marked as gone and as reused, its
-- PID is put into the set that `process_iter` empties, and every later check raises.
pub is_running_reused :
    (os : Platform) (k k' : Kernel) (w : World) (other : Process)
    → IsLive w
    → init os k false (some (pos w.pid)) ≡ ok other
    → eq w.self other ≡ false
    → (is_running os k w).0 ≡ ok false
      × ((is_running os k w).1.pids_reused ≡ add w.pid w.pids_reused)
      × ((raise_if_pid_reused os k' (is_running os k w).1).0 ≡ err (Error.no_such_process w.pid))
unfolding is_running raise_if_pid_reused
is_running_reused os k k' w other live found ne = ground arith
