-- ===== src/PosixWait/Ends.antt =====
-- When a wait ends.
use psutil.Prelude.{
  ℕ, zero, suc, ◌+◌, ◌≡◌, ◌≢◌, refl, ◌⊎◌, inl, inr, Bool, true, false, Option, none, Result, ok,
  err, arith, subst,
}
use psutil.PosixWait.{
  Decoder, Env, Waitpid, Outcome, pid_exists, expired, sleep_or_timeout, after_sleep, while_alive,
  by_answer, poll, wait_loop, wait_pid_posix,
}

while_alive_ends :
    (b : Result Bool) (next : Outcome) → (b ≡ ok false) ⊎ (next ≢ none) → while_alive b next ≢ none
while_alive_ends (ok true) next h = ground (arith, h)
while_alive_ends (ok false) next h = ground arith
while_alive_ends (err e) next h = ground arith

after_sleep_ends :
    (r : Result ℕ) (next : ℕ → Outcome) → ((i : ℕ) → next i ≢ none) → after_sleep r next ≢ none
after_sleep_ends (ok i) next h = h i
after_sleep_ends (err e) next h = ground arith

by_answer_ends :
    (d : Decoder) (a : Waitpid) (polled slept : Outcome)
    → polled ≢ none
    → ((a ≡ Waitpid.running) → slept ≢ none)
    → by_answer d a polled slept ≢ none
by_answer_ends d Waitpid.no_child polled slept p s = p
by_answer_ends d Waitpid.running polled slept p s = s refl
by_answer_ends d (Waitpid.reaped status) polled slept p s = λ e. ground (arith, e)

sleep_late :
    (timeout : Option ℕ) (start now interval : ℕ) (next : ℕ → Outcome)
    → expired timeout start now ≡ true
    → after_sleep (sleep_or_timeout timeout start now interval) next ≢ none
unfolding sleep_or_timeout
sleep_late timeout start now interval next late = rw (late) (λ e. ground (arith, e))

module _ (d : Decoder) (pid : ℕ) (timeout : Option ℕ) (env : Env) where
  abbrev LateAt : ℕ → Type 0
  LateAt n = expired timeout (env.timer 0) (env.timer n) ≡ true

  later : (n k : ℕ) → LateAt (n + suc k) → LateAt (suc n + k)
  later n k h = subst (λ m. LateAt m) (omega arith) h

  now : (n : ℕ) → LateAt (n + 0) → LateAt n
  now n h = subst (λ m. LateAt m) (omega arith) h

  poll_late_ends :
      (k n interval : ℕ) → LateAt (n + k) → poll d pid timeout env (suc k) n interval ≢ none
  unfolding poll
  poll_late_ends zero n interval late = while_alive_ends (pid_exists pid (env.kill n)) _ (
      inr (
        sleep_late timeout (env.timer 0) (env.timer n) interval (poll d pid timeout env 0 (suc n))
          (now n late)))
  poll_late_ends (suc k) n interval late = while_alive_ends (pid_exists pid (env.kill n)) _ (
      inr (
        after_sleep_ends (sleep_or_timeout timeout (env.timer 0) (env.timer n) interval)
          (poll d pid timeout env (suc k) (suc n))
          (λ i. poll_late_ends k (suc n) i (later n k late))))

  loop_late_ends :
      (k n interval : ℕ) → LateAt (n + k) → wait_loop d pid timeout env (suc k) n interval ≢ none
  unfolding wait_loop
  loop_late_ends zero n interval late =
      by_answer_ends d (env.waitpid n) _ _ (poll_late_ends 0 n interval late) (λ _.
        sleep_late timeout (env.timer 0) (env.timer n) interval
          (wait_loop d pid timeout env 0 (suc n)) (now n late))
  loop_late_ends (suc k) n interval late =
      by_answer_ends d (env.waitpid n) _ _ (poll_late_ends (suc k) n interval late) (λ _.
        after_sleep_ends (sleep_or_timeout timeout (env.timer 0) (env.timer n) interval)
          (wait_loop d pid timeout env (suc k) (suc n))
          (λ i. loop_late_ends k (suc n) i (later n k late)))

  -- A wait with a timeout ends by the first step at which the timer has passed the deadline, whatever
  -- else the system answers: with as many steps of fuel it has an outcome.
  pub wait_pid_posix_late_ends :
      (k : ℕ)
      → expired timeout (env.timer 0) (env.timer (1 + k)) ≡ true
      → wait_pid_posix d pid timeout env (suc k) ≢ none
  unfolding wait_pid_posix
  wait_pid_posix_late_ends k late = loop_late_ends k 1 1 late

  poll_gone_ends :
      (k n interval : ℕ)
      → pid_exists pid (env.kill (n + k)) ≡ ok false
      → poll d pid timeout env (suc k) n interval ≢ none
  unfolding poll
  poll_gone_ends zero n interval gone =
      while_alive_ends (pid_exists pid (env.kill n)) _
        (inl (subst (λ m. pid_exists pid (env.kill m) ≡ ok false) (omega arith) gone))
  poll_gone_ends (suc k) n interval gone = while_alive_ends (pid_exists pid (env.kill n)) _ (
      inr (
        after_sleep_ends (sleep_or_timeout timeout (env.timer 0) (env.timer n) interval)
          (poll d pid timeout env (suc k) (suc n))
          (λ i.
            poll_gone_ends k (suc n) i
              (subst (λ m. pid_exists pid (env.kill m) ≡ ok false) (omega arith) gone))))

  -- A wait in which `os.waitpid` never answers that the process still runs, as it does not where it
  -- blocks, ends by the first step at which the PID does not exist.
  pub wait_pid_posix_gone_ends :
      (k : ℕ)
      → ((n : ℕ) → env.waitpid n ≢ Waitpid.running)
      → pid_exists pid (env.kill (1 + k)) ≡ ok false
      → wait_pid_posix d pid timeout env (suc k) ≢ none
  unfolding wait_pid_posix wait_loop
  wait_pid_posix_gone_ends k blocks gone =
      by_answer_ends d (env.waitpid 1) _ _ (poll_gone_ends k 1 1 gone) (λ e. absurd (blocks 1 e))
