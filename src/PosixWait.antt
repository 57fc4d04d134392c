-- ===== src/PosixWait.antt =====
-- psutil/_psposix.py: `pid_exists`, `convert_exit_code`, `wait_pid_posix`, `_waitpid`,
-- `wait_pid_pidfd_open`, `wait_pid_kqueue` and `wait_pid`. Times are counted in tenths of a
-- millisecond. A `TimeoutExpired` that is raised here carries no PID; 0 stands for that.
pub mod Reasons
pub mod Ends
use psutil.Prelude.{
  ℕ, zero, suc, ◌+◌, ◌*◌, Bool, true, false, Option, none, some, Result, ok, err, Error, leb, ◌==◌,
  if◌then◌else◌,
}
use Prim.Native.Nat.{min}
use psutil.Prelude.Int.{ℤ, pos, sub_ℕ}
use psutil.Process.Defs.{Kill}

-- `pid_exists`, of a PID and what `os.kill(pid, 0)` does.
unfoldable pub pid_exists : ℕ → Kill → Result Bool
pid_exists zero _ = ok true
pid_exists (suc n) Kill.delivered = ok true
pid_exists (suc n) Kill.lookup_error = ok false
pid_exists (suc n) Kill.permission_error = ok true
pid_exists (suc n) Kill.other_error = err Error.os_error

-- What `os.WIFEXITED` and its companions say of a status.
pub record Decoder : Type 0 where
  pub wifexited : ℕ → Bool
  pub wexitstatus : ℕ → ℕ
  pub wifsignaled : ℕ → Bool
  pub wtermsig : ℕ → ℕ

-- `convert_exit_code`; `negsig_to_enum` keeps the number.
unfoldable pub convert_exit_code : Decoder → ℕ → Result (Option ℤ)
convert_exit_code d status =
    if d.wifexited status
    then ok (some (pos (d.wexitstatus status)))
    else if d.wifsignaled status
    then ok (some (sub_ℕ 0 (d.wtermsig status)))
    else err Error.value_error

-- `os.waitpid`: `ChildProcessError`, (0, 0), or the PID and a status.
pub data Waitpid : Type 0 where
  no_child running : Waitpid
  reaped : ℕ → Waitpid

-- What the system answers at each step of a wait; `timer 0` is read before the first step.
pub record Env : Type 0 where
  pub waitpid : ℕ → Waitpid
  pub kill : ℕ → Kill
  pub timer : ℕ → ℕ

abbrev max_interval : ℕ
max_interval = 400

-- `timeout == 0 or (stop_at is not None and _timer() >= stop_at)`
unfoldable pub expired : Option ℕ → ℕ → ℕ → Bool
expired none start now = false
expired (some zero) start now = true
expired (some (suc t)) start now = leb (start + suc t) now

-- `sleep_or_timeout`
unfoldable pub sleep_or_timeout : Option ℕ → ℕ → ℕ → ℕ → Result ℕ
unfolding expired
sleep_or_timeout timeout start now interval =
    if expired timeout start now
    then err (Error.timeout_expired 0)
    else ok (min (interval * 2) max_interval)

-- What a wait comes to; `none` is fuel that ran out.
abbrev pub Outcome : Type 0
Outcome = Option (Result (Option ℤ))

abbrev after_sleep : Result ℕ → (ℕ → Outcome) → Outcome
after_sleep (ok interval) next = next interval
after_sleep (err e) next = some (err e)

abbrev while_alive : Result Bool → Outcome → Outcome
while_alive (ok true) next = next
while_alive (ok false) next = some (ok none)
while_alive (err e) next = some (err e)

-- `kq.control`: events or none, `EACCES`, `EPERM` or `ESRCH`, or another `OSError`.
pub data Control : Type 0 where
  found found_none refused failed : Control

-- What a probe of `pidfd_open` or of `kqueue` does: `EMFILE` and `ENFILE` are told apart.
pub data Probe : Type 0 where
  works too_many_files blocked : Probe

-- `can_use_pidfd_open` and `can_use_kqueue`: whether the names are there, and the probe.
unfoldable pub can_use : Bool → Probe → Bool
can_use false probe = false
can_use true Probe.works = true
can_use true Probe.too_many_files = true
can_use true Probe.blocked = false

-- What the system offers, and what the way that is taken meets.
pub record Ways : Type 0 where
  pub has_pidfd_open : Bool
  pub pidfd_probe : Probe
  pub has_kqueue : Bool
  pub kqueue_probe : Probe
  pub opened : Bool
  pub events : Bool
  pub control : Control

-- The three cases of the body of `while True`: `polled` is what the inner loop comes to, `slept` what
-- the next iteration does after a sleep.
abbrev pub by_answer : Decoder → Waitpid → Outcome → Outcome → Outcome
by_answer d Waitpid.no_child polled slept = polled
by_answer d Waitpid.running polled slept = slept
by_answer d (Waitpid.reaped status) polled slept = some (convert_exit_code d status)

module _ (d : Decoder) (pid : ℕ) (timeout : Option ℕ) (env : Env) where
  -- `while _pid_exists(pid)`, from step `n` on
  unfoldable pub poll : ℕ → ℕ → ℕ → Outcome
  unfolding sleep_or_timeout
  poll zero n interval = none
  poll (suc fuel) n interval =
      let rest = poll fuel (suc n) in
      while_alive (pid_exists pid (env.kill n))
        (after_sleep (sleep_or_timeout timeout (env.timer 0) (env.timer n) interval) rest)

  -- `while True`
  unfoldable pub wait_loop : ℕ → ℕ → ℕ → Outcome
  unfolding poll
  wait_loop zero n interval = none
  wait_loop (suc fuel) n interval =
      let rest = wait_loop fuel (suc n) in
      by_answer d (env.waitpid n) (poll (suc fuel) n interval)
        (after_sleep (sleep_or_timeout timeout (env.timer 0) (env.timer n) interval) rest)

  unfoldable pub wait_pid_posix : ℕ → Outcome
  unfolding wait_loop
  wait_pid_posix fuel = wait_loop fuel 1 1

  -- `_waitpid`, given what `os.waitpid(pid, 0)` answers
  unfoldable pub waitpid_gone : ℕ → Waitpid → Outcome
  unfolding wait_pid_posix
  waitpid_gone fuel Waitpid.no_child = wait_pid_posix fuel
  waitpid_gone fuel Waitpid.running = some (err Error.assertion_error)
  waitpid_gone fuel (Waitpid.reaped status) = some (convert_exit_code d status)

  -- `wait_pid_pidfd_open`: whether `os.pidfd_open` returned, and whether `poll` saw an event
  unfoldable pub wait_pid_pidfd_open : ℕ → Bool → Bool → Waitpid → Outcome
  unfolding waitpid_gone
  wait_pid_pidfd_open fuel opened events answer =
      if opened
      then (if events then waitpid_gone fuel answer else some (err (Error.timeout_expired 0)))
      else wait_pid_posix fuel

  -- `wait_pid_kqueue`: `Control` is what `kq.control` does.
  unfoldable pub wait_pid_kqueue : ℕ → Bool → Control → Waitpid → Outcome
  unfolding waitpid_gone
  wait_pid_kqueue fuel false control answer = wait_pid_posix fuel
  wait_pid_kqueue fuel true Control.found answer = waitpid_gone fuel answer
  wait_pid_kqueue fuel true Control.found_none answer = some (err (Error.timeout_expired 0))
  wait_pid_kqueue fuel true Control.refused answer = wait_pid_posix fuel
  wait_pid_kqueue fuel true Control.failed answer = some (err Error.os_error)

  -- `wait_pid`; the timeout is a number, which its second assertion checks.
  unfoldable pub wait_pid : ℕ → Ways → Waitpid → Outcome
  unfolding wait_pid_pidfd_open wait_pid_kqueue
  wait_pid fuel w answer =
      if pid == 0
      then some (err Error.assertion_error)
      else if can_use w.has_pidfd_open w.pidfd_probe
      then wait_pid_pidfd_open fuel w.opened w.events answer
      else if can_use w.has_kqueue w.kqueue_probe
      then wait_pid_kqueue fuel w.opened w.control answer
      else wait_pid_posix fuel
