-- ===== src/Process/Signals.antt =====
-- psutil/__init__.py: `Process._send_signal`, `send_signal`, `suspend`, `resume`, `terminate`, `kill`
-- and the setter of `nice`. Each takes a kernel for each moment at which it asks one.
pub mod Safety
pub mod Hole
pub mod Outcome
use psutil.Prelude.{
  ℕ, Bool, true, false, ◌&&◌, ◌∷◌, Result, ok, err, Error, Exec, ◌==◌, if◌then◌else◌,
}
use psutil.Prelude.Int.{ℤ}
use psutil.Platform.{Platform, is_posix, is_openbsd}
use psutil.Process.Defs.{
  Process, Kernel, Kill, World, Request, os_kill, send, suspend, resume, kill, nice_set,
}
use psutil.Process.Running.{is_running, raise_if_pid_reused, mark_gone}

-- The signal numbers, as Linux has them.
abbrev pub sigkill : ℕ
sigkill = 9

abbrev pub sigterm : ℕ
sigterm = 15

abbrev pub sigcont : ℕ
sigcont = 18

abbrev pub sigstop : ℕ
sigstop = 19

abbrev pub log : Request → World → World
log r w = record w { requests = (w.pid, r) ∷ w.requests }

-- The handlers round `os.kill`; `zombie` is `OPENBSD and pid_exists(pid)`.
abbrev pub killed : Bool → Kill → Exec World (Unit {0})
killed zombie Kill.delivered w = (ok tt, w)
killed zombie Kill.permission_error w = (err (Error.access_denied w.pid), w)
killed zombie Kill.other_error w = (err Error.os_error, w)
killed true Kill.lookup_error w = (err (Error.zombie_process w.pid), w)
killed false Kill.lookup_error w = (err (Error.no_such_process w.pid), mark_gone w)

-- `_send_signal` after the check.
os_kill_call : Platform → Kernel → ℕ → Exec World (Unit {0})
os_kill_call os k sig w =
    if w.pid == 0
    then (err Error.value_error, w)
    else killed (is_openbsd os && k.pid_exists w.pid) (k.kill w.pid sig) (log (os_kill sig) w)

-- A method of the platform object after the check.
abbrev pub proc_method : Kernel → Request → Exec World (Unit {0})
proc_method k r w = (k.proc_call r w.pid, log r w)

abbrev pub and_then : Result (Unit {0}) × World → Exec World (Unit {0}) → Result (Unit {0}) × World
and_then (ok u, w) f = f w
and_then (err e, w) f = (err e, w)

-- `_send_signal`
unfoldable pub posix_send : Platform → Kernel → Kernel → ℕ → Exec World (Unit {0})
unfolding os_kill_call
posix_send os k k' sig w = and_then (raise_if_pid_reused os k w) (os_kill_call os k' sig)

abbrev not_running : Result Bool × World → Exec World (Unit {0}) → Result (Unit {0}) × World
not_running (ok true, w) f = f w
not_running (ok false, w) f = (err (Error.no_such_process w.pid), w)
not_running (err e, w) f = (err e, w)

-- `sig != signal.SIGTERM and not self.is_running()`
windows_send : Platform → Kernel → Kernel → ℕ → Exec World (Unit {0})
unfolding proc_method
windows_send os k k' sig w =
    if sig == sigterm
    then proc_method k' (send sig) w
    else not_running (is_running os k w) (proc_method k' (send sig))

unfoldable pub send_signal : Platform → Kernel → Kernel → Kernel → ℕ → Exec World (Unit {0})
unfolding posix_send windows_send
send_signal os k₁ k₂ k₃ sig w =
    if is_posix os
    then posix_send os k₁ k₃ sig w
    else and_then (raise_if_pid_reused os k₁ w) (windows_send os k₂ k₃ sig)

-- `suspend`, `resume`, `terminate` and `kill`: a signal on POSIX, a method on Windows.
unfoldable pub control : Platform → Kernel → Kernel → ℕ → Request → Exec World (Unit {0})
unfolding posix_send proc_method
control os k k' sig r w =
    if is_posix os
    then posix_send os k k' sig w
    else and_then (raise_if_pid_reused os k w) (proc_method k' r)

unfoldable pub suspend_process : Platform → Kernel → Kernel → Exec World (Unit {0})
unfolding control
suspend_process os k k' = control os k k' sigstop suspend

unfoldable pub resume_process : Platform → Kernel → Kernel → Exec World (Unit {0})
unfolding control
resume_process os k k' = control os k k' sigcont resume

unfoldable pub terminate_process : Platform → Kernel → Kernel → Exec World (Unit {0})
unfolding control
terminate_process os k k' = control os k k' sigterm kill

unfoldable pub kill_process : Platform → Kernel → Kernel → Exec World (Unit {0})
unfolding control
kill_process os k k' = control os k k' sigkill kill

-- `nice(value)`
unfoldable pub set_nice : Platform → Kernel → Kernel → ℤ → Exec World (Unit {0})
unfolding proc_method
set_nice os k k' value w = and_then (raise_if_pid_reused os k w) (proc_method k' (nice_set value))
