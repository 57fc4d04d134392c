-- ===== src/Process/Waiting/Again.antt =====
-- Waiting for a process a second time.
use psutil.Prelude.{ℕ, ◌≡◌, false, Option, some, Result, ok, err, Error, arith}
use psutil.Prelude.Int.{ℤ}
use psutil.Process.Defs.{Process}
use psutil.Process.Waiting.{is_negative, wait, Popen, popen_wait}

-- Once `wait` has returned a code, None included, it returns that code at any later call whose timeout
-- is accepted, leaves the object as it is, and does not depend on what the platform module would say.
pub wait_again :
    (t t' : Option ℤ) (answer answer' : Result (Option ℤ)) (p : Process) (code : Option ℤ)
    → (wait t answer p).0 ≡ ok code
    → is_negative t' ≡ false
    → wait t' answer' (wait t answer p).1 ≡ (ok code, (wait t answer p).1)
unfolding wait
wait_again t t' answer answer' p code h positive = ground arith

-- A `TimeoutExpired` that `wait` raises carries the object's PID, and the object is left as it was.
pub wait_expired :
    (t : Option ℤ) (answer : Result (Option ℤ)) (p : Process) (pid : ℕ)
    → (wait t answer p).0 ≡ err (Error.timeout_expired pid)
    → (pid ≡ p.pid) × ((wait t answer p).1 ≡ p)
unfolding wait
wait_expired t answer p pid h = ground arith

-- Once `Popen.wait` has returned an exit code that is not None, it returns that code at any later call,
-- whatever its timeout, and leaves the object as it is.
pub popen_wait_again :
    (t t' : Option ℤ) (answer answer' : Result (Option ℤ)) (o : Popen) (code : ℤ)
    → (popen_wait t answer o).0 ≡ ok (some code)
    → popen_wait t' answer' (popen_wait t answer o).1 ≡ (ok (some code), (popen_wait t answer o).1)
unfolding popen_wait wait
popen_wait_again t t' answer answer' o code h = ground arith
