-- ===== src/Process/Waiting.antt =====
-- psutil/__init__.py: `Process.wait` and `Popen.wait`. `answer` is what `self._proc.wait(timeout)` of
-- the platform module does, if it is called. A timeout is a number, so that the check of its type is not
-- modelled.
pub mod Again
use psutil.Prelude.{
  ℕ, Bool, true, false, Option, none, some, Result, ok, err, Error, Exec, ◌==◌, if◌then◌else◌,
}
use psutil.Prelude.Int.{ℤ, pos, negsuc}
use psutil.Process.Defs.{Process}

-- `timeout is not None and timeout < 0`
abbrev pub is_negative : Option ℤ → Bool
is_negative (some (negsuc n)) = true
is_negative _ = false

-- The `try` block and its handler.
abbrev stored : Result (Option ℤ) → Exec Process (Option ℤ)
stored (ok code) p = (ok code, record p { exitcode = some code })
stored (err (Error.timeout_expired _)) p = (err (Error.timeout_expired p.pid), p)
stored (err e) p = (err e, p)

abbrev known : Option (Option ℤ) → Result (Option ℤ) → Exec Process (Option ℤ)
known (some code) answer p = (ok code, p)
known none answer p = stored answer p

unfoldable pub wait : Option ℤ → Result (Option ℤ) → Exec Process (Option ℤ)
wait timeout answer p =
    if p.pid == 0
    then (err Error.value_error, p)
    else if is_negative timeout
    then (err Error.value_error, p)
    else known p.exitcode answer p

-- A `Popen` object: its `subprocess.Popen`'s `returncode`, and the `Process` that it is.
pub record Popen : Type 0 where
  pub returncode : Option ℤ
  pub process : Process

abbrev returned : Result (Option ℤ) × Process → Exec Popen (Option ℤ)
returned (ok code, p) o = (ok code, record { returncode = code; process = p })
returned (err e, p) o = (err e, record o { process = p })

abbrev popen_known : Option ℤ → Option ℤ → Result (Option ℤ) → Exec Popen (Option ℤ)
popen_known (some code) timeout answer o = (ok (some code), o)
popen_known none timeout answer o = returned (wait timeout answer o.process) o

-- `Popen.wait`
unfoldable pub popen_wait : Option ℤ → Result (Option ℤ) → Exec Popen (Option ℤ)
unfolding wait
popen_wait timeout answer o = popen_known o.returncode timeout answer o
