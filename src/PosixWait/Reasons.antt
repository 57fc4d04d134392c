-- ===== src/PosixWait/Reasons.antt =====
-- Why a wait ends the way it does.
use psutil.Prelude.{
  ℕ, zero, suc, ◌≡◌, ◌≢◌, refl, ◌⊎◌, inl, inr, Bool, true, false, Option, none, some, Result, ok,
  err, Error, Bool-cases, arith,
}
use psutil.Prelude.Int.{ℤ}
use psutil.Process.Defs.{Kill}
use psutil.PosixWait.{
  Decoder, Env, Waitpid, Outcome, pid_exists, convert_exit_code, expired, sleep_or_timeout,
  after_sleep, while_alive, by_answer, poll, wait_loop, wait_pid_posix,
}

pid_exists-err : (pid : ℕ) (k : Kill) (e : Error) → pid_exists pid k ≡ err e → e ≡ Error.os_error
unfolding pid_exists
pid_exists-err pid k e h = ground arith

convert_exit_code_not_none : (d : Decoder) (status : ℕ) → convert_exit_code d status ≢ ok none
unfolding convert_exit_code
convert_exit_code_not_none d status = ground arith

module _ (d : Decoder) (pid : ℕ) (timeout : Option ℕ) (env : Env) where
  -- At step `n` the process was still there.
  abbrev pub StillThere : ℕ → Type 0
  StillThere n = (env.waitpid n ≡ Waitpid.running) ⊎ (pid_exists pid (env.kill n) ≡ ok true)

  abbrev pub Late : ℕ → Type 0
  Late n = (expired timeout (env.timer 0) (env.timer n) ≡ true) × StillThere n

  abbrev pub Status : Result (Option ℤ) → Type 0
  Status r =
      (n : ℕ) × (status : ℕ) × (env.waitpid n ≡ Waitpid.reaped status)
      × (convert_exit_code d status ≡ r)

  -- What has to have happened for a wait to end so.
  abbrev pub Explained : Outcome → Type 0
  Explained none = Unit
  Explained (some (ok none)) = (n : ℕ) × (pid_exists pid (env.kill n) ≡ ok false)
  Explained (some (ok (some code))) = Status (ok (some code))
  Explained (some (err e)) =
      ((e ≡ Error.timeout_expired 0) × ((n : ℕ) × Late n)) ⊎ ((e ≡ Error.os_error) ⊎ Status (err e))

  while_alive-Explained :
      (n : ℕ) (b : Result Bool) (next : Outcome)
      → pid_exists pid (env.kill n) ≡ b
      → ((b ≡ ok true) → Explained next)
      → Explained (while_alive b next)
  while_alive-Explained n (ok true) next e h = h refl
  while_alive-Explained n (ok false) next e h = (n, e)
  while_alive-Explained n (err x) next e h = inr (inl (pid_exists-err pid (env.kill n) x e))

  after_sleep-Explained :
      (n interval : ℕ) (next : ℕ → Outcome)
      → StillThere n
      → ((i : ℕ) → Explained (next i))
      → Explained (after_sleep (sleep_or_timeout timeout (env.timer 0) (env.timer n) interval) next)
  unfolding sleep_or_timeout
  after_sleep-Explained n interval next there h =
      elim (Bool-cases (expired timeout (env.timer 0) (env.timer n))) [
        | inl late ↦ rw (late) (inl (refl, (n, (late, there))))
        | inr early ↦ rw (early) (h _)
      ]

  poll-Explained : (fuel n interval : ℕ) → Explained (poll d pid timeout env fuel n interval)
  unfolding poll
  poll-Explained zero n interval = tt
  poll-Explained (suc fuel) n interval =
      while_alive-Explained n (pid_exists pid (env.kill n)) _ refl (λ e.
        after_sleep-Explained n interval (poll d pid timeout env fuel (suc n)) (inr e)
          (poll-Explained fuel (suc n)))

  Status-Explained : (r : Result (Option ℤ)) → Status r → r ≢ ok none → Explained (some r)
  Status-Explained (ok none) s h = absurd (h refl)
  Status-Explained (ok (some c)) s h = s
  Status-Explained (err e) s h = inr (inr s)

  by_answer-Explained :
      (n : ℕ) (a : Waitpid) (polled slept : Outcome)
      → env.waitpid n ≡ a
      → Explained polled
      → ((a ≡ Waitpid.running) → Explained slept)
      → Explained (by_answer d a polled slept)
  by_answer-Explained n Waitpid.no_child polled slept e p s = p
  by_answer-Explained n Waitpid.running polled slept e p s = s refl
  by_answer-Explained n (Waitpid.reaped status) polled slept e p s =
      Status-Explained (convert_exit_code d status) (n, status, e, refl)
        (convert_exit_code_not_none d status)

  wait_loop-Explained :
      (fuel n interval : ℕ) → Explained (wait_loop d pid timeout env fuel n interval)
  unfolding wait_loop
  wait_loop-Explained zero n interval = tt
  wait_loop-Explained (suc fuel) n interval =
      by_answer-Explained n (env.waitpid n) _ _ refl (poll-Explained (suc fuel) n interval) (λ e.
        after_sleep-Explained n interval (wait_loop d pid timeout env fuel (suc n)) (inl e)
          (wait_loop-Explained fuel (suc n)))

  -- Whatever the system answers: a wait that returns an exit code has it from a status that `os.waitpid`
  -- gave, one that returns None saw that the PID does not exist, and one that raises `TimeoutExpired`
  -- saw the process still there at a step when the time was over.
  pub wait_pid_posix-Explained : (fuel : ℕ) → Explained (wait_pid_posix d pid timeout env fuel)
  unfolding wait_pid_posix
  wait_pid_posix-Explained fuel = wait_loop-Explained fuel 1 1
