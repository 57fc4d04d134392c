-- ===== src/Windows/Waiting.antt =====
-- psutil/_pswindows.py: `Process.wait`. The steps of its loop go up to the fuel.
pub mod Ends
use psutil.Prelude.{
  ℕ, zero, suc, ◌+◌, Bool, true, false, Option, none, some, Error, leb, if◌then◌else◌,
}
use psutil.Prelude.Int.{ℤ}
use psutil.Windows.Errors.{Codes, WinError, Call, returned, refused, raised, wrap_exceptions}

-- What `_psutil.proc_wait` comes to: an exit code or None, `TimeoutExpired`, `TimeoutAbandoned`, or an
-- `OSError`.
pub data ProcWait : Type 0 where
  exited : Option ℤ → ProcWait
  timed_out abandoned : ProcWait
  failed : WinError → ProcWait

-- What `pid_exists(pid)` and `timer()` answer in a round of the loop.
pub record Look : Type 0 where
  pub exists : Call Bool
  pub now : ℕ

-- `stop_at`
abbrev pub deadline : Option ℕ → ℕ → Option ℕ
deadline none start = none
deadline (some timeout) start = some (start + timeout)

-- `stop_at and timer() >= stop_at`
abbrev pub is_late : Option ℕ → ℕ → Bool
is_late none now = false
is_late (some zero) now = false
is_late (some (suc n)) now = leb (suc n) now

-- What a wait comes to; `none` is fuel that ran out.
abbrev pub Wait : Type 0
Wait = Option (Call (Option ℤ))

-- The body of the loop, of `pid_exists`, of the test of the deadline and of what the next rounds do.
abbrev pub by_look : ℕ → Option ℤ → Call Bool → Bool → Wait → Wait
by_look pid exit_code (returned false) late next = some (returned exit_code)
by_look pid exit_code (returned true) true next = some (raised (Error.timeout_expired pid))
by_look pid exit_code (returned true) false next = next
by_look pid exit_code (refused e) late next = some (refused e)
by_look pid exit_code (raised x) late next = some (raised x)

unfoldable pub poll : ℕ → Option ℤ → Option ℕ → ℕ → (ℕ → Look) → Wait
poll pid exit_code stop_at zero looks = none
poll pid exit_code stop_at (suc fuel) looks =
    by_look pid exit_code ((looks 0).exists) (is_late stop_at (looks 0).now)
      (poll pid exit_code stop_at fuel (λ i. looks (suc i)))

abbrev pub by_proc_wait : ℕ → Option ℕ → ℕ → (ℕ → Look) → ProcWait → Wait
by_proc_wait pid stop_at fuel looks (exited code) = poll pid code stop_at fuel looks
by_proc_wait pid stop_at fuel looks timed_out = some (raised (Error.timeout_expired pid))
by_proc_wait pid stop_at fuel looks abandoned = poll pid none stop_at fuel looks
by_proc_wait pid stop_at fuel looks (failed e) = some (refused e)

abbrev pub wrapped : Codes → ℕ → Wait → Wait
wrapped codes pid none = none
wrapped codes pid (some call) = some (wrap_exceptions codes pid call)

-- `start` is what `timer()` answers before `proc_wait`.
unfoldable pub wait : Codes → ℕ → Option ℕ → ℕ → ProcWait → (ℕ → Look) → ℕ → Wait
unfolding poll
wait codes pid timeout start proc_wait looks fuel =
    wrapped codes pid (by_proc_wait pid (deadline timeout start) fuel looks proc_wait)
