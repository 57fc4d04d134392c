-- ===== src/Tests/Waits.antt =====
-- Waiting for processes on POSIX, and again for one that is gone.
use psutil.Prelude.{
  ℕ, ◌+◌, ◌-◌, ◌≡◌, ◌≢◌, Option, none, some, Result, ok, err, Error, refl, arith, ltb,
  if◌then◌else◌,
}
use psutil.Prelude.Int.{ℤ, pos, negsuc}
use psutil.Process.Defs.{Process, Kill, blank}
use psutil.Process.Waiting.{wait, Popen, popen_wait}
use psutil.Process.Waiting.Again.{wait_again, popen_wait_again}
use psutil.PosixWait.{Decoder, Env, Waitpid, pid_exists, expired, convert_exit_code, wait_pid_posix}
use psutil.PosixWait.Reasons.{Explained, wait_pid_posix-Explained}
use psutil.PosixWait.Ends.{wait_pid_posix_late_ends, wait_pid_posix_gone_ends}

-- Statuses from 256 on are exit codes here, lower ones signals.
abbrev decoder : Decoder
decoder = record {
  wifexited = λ s. ltb 255 s;
  wexitstatus = λ s. s - 256;
  wifsignaled = λ s. ltb 0 s;
  wtermsig = λ s. s;
}

abbrev until : ℕ → Waitpid → ℕ → Waitpid
until n a m = if ltb m n then Waitpid.running else a

-- A child that SIGKILL ended in the third step.
abbrev killed_child : Env
killed_child = record {
  waitpid = until 3 (Waitpid.reaped 9);
  kill = λ _. Kill.delivered;
  timer = λ n. 10 + n;
}

-- A process that is no child and goes away in the second step.
abbrev stranger : Env
stranger = record {
  waitpid = λ _. Waitpid.no_child;
  kill = λ n. if ltb n 2 then Kill.delivered else Kill.lookup_error;
  timer = λ n. 10 + n;
}

killed_code : wait_pid_posix decoder 42 (some 5) killed_child 4 ≡ some (ok (some (negsuc 8)))
unfolding wait_pid_posix convert_exit_code
killed_code = refl

killed_late :
    wait_pid_posix decoder 42 (some 1) killed_child 4 ≡ some (err (Error.timeout_expired 0))
unfolding wait_pid_posix convert_exit_code
killed_late = refl

wait_pid_posix-Explained_example :
    Explained decoder 42 (some 5) killed_child (wait_pid_posix decoder 42 (some 5) killed_child 4)
wait_pid_posix-Explained_example = wait_pid_posix-Explained decoder 42 (some 5) killed_child 4

wait_pid_posix_late_ends_example : wait_pid_posix decoder 42 (some 5) killed_child 5 ≢ none
unfolding expired
wait_pid_posix_late_ends_example = wait_pid_posix_late_ends decoder 42 (some 5) killed_child 4 refl

wait_pid_posix_gone_ends_run : wait_pid_posix decoder 42 none stranger 2 ≢ none
unfolding pid_exists
wait_pid_posix_gone_ends_run =
    wait_pid_posix_gone_ends decoder 42 none stranger 1 (λ n e. ground (arith, e)) refl

abbrev waited : Result (Option ℤ) × Process
waited = wait (some (pos 1)) (ok none) (blank 42)

waited_none : waited.0 ≡ ok none
unfolding wait blank
waited_none = refl

wait_again_run : wait none (ok (some (pos 3))) waited.1 ≡ (ok none, waited.1)
wait_again_run =
    wait_again (some (pos 1)) none (ok none) (ok (some (pos 3))) (blank 42) none waited_none refl

abbrev popen : Popen
popen = record { returncode = none; process = blank 42 }

popen_three : (popen_wait none (ok (some (pos 3))) popen).0 ≡ ok (some (pos 3))
unfolding popen_wait blank
popen_three = refl

popen_wait_again_run :
    popen_wait (some (negsuc 0)) (ok none) (popen_wait none (ok (some (pos 3))) popen).1
    ≡ (ok (some (pos 3)), (popen_wait none (ok (some (pos 3))) popen).1)
popen_wait_again_run =
    popen_wait_again none (some (negsuc 0)) (ok (some (pos 3))) (ok none) popen (pos 3) popen_three
