-- ===== src/Tests/Signals.antt =====
-- Signals: to the process itself, to nobody, and to the process that took over the PID.
use psutil.Prelude.{ℕ, true, false, some, [], ◌∷◌, ok, err, Error, ◌≡◌, ◌≢◌, refl, inl, arith}
use psutil.Prelude.Int.{pos}
use psutil.Platform.{Platform}
use psutil.Process.Defs.{Kernel, Kill, os_kill, kill}
use psutil.Process.Identity.{init, eq}
use psutil.Process.Running.{is_running, raise_if_pid_reused}
use psutil.Process.Signals.{send_signal, control, posix_send}
use psutil.Process.Signals.Safety
use psutil.Process.Signals.Safety.{taken_by_other}
use psutil.Process.Signals.Outcome
use psutil.Process.Signals.Hole
use psutil.Tests.World.{kernel, process, world}

abbrev linux : Platform
linux = Platform.linux

abbrev here : Kernel
here = kernel 7 100 Kill.delivered

abbrev taken : Kernel
taken = kernel 7 900 Kill.delivered

abbrev ended : Kernel
ended = kernel 8 900 Kill.lookup_error

abbrev forbidden : Kernel
forbidden = kernel 7 100 Kill.permission_error

delivered : (send_signal linux here here here 9 world).1.requests ≡ (7, os_kill 9) ∷ []
unfolding send_signal raise_if_pid_reused init eq
delivered = refl

send_signal-safe_example :
    ((send_signal linux here here here 9 world).1.requests ≡ (7, os_kill 9) ∷ [])
    × (◌≢◌ {A = ℕ} 7 0)
    × (taken_by_other world.self (init linux here false (some (pos 7))) ≡ false)
unfolding send_signal raise_if_pid_reused init eq
send_signal-safe_example =
    Safety.send_signal-safe linux here here here 9 world refl (refl, refl) (λ e. cc)

control-safe_run :
    ((control linux here here 9 kill world).1.requests ≡ (7, os_kill 9) ∷ [])
    × (taken_by_other world.self (init linux here false (some (pos 7))) ≡ false)
unfolding control raise_if_pid_reused init eq
control-safe_run = Safety.control-safe linux here here 9 kill world (refl, refl) (λ e. cc)

send_signal_reused_example :
    ((send_signal linux taken here here 9 world).0 ≡ err (Error.no_such_process 7))
    × ((send_signal linux taken here here 9 world).1.requests ≡ [])
    × ((send_signal linux taken here here 9 world).1.pid_reused ≡ true)
unfolding init eq
send_signal_reused_example =
    Safety.send_signal_reused linux taken here here 9 world (process 7 900) (refl, refl) refl refl

gone_then_reused_example :
    ((is_running linux ended world).0 ≡ ok false)
    × ((send_signal linux taken taken taken 9 (is_running linux ended world).1).1.requests
        ≡ (7, os_kill 9) ∷ [])
unfolding init eq
gone_then_reused_example =
    Hole.gone_then_reused linux ended taken taken taken 9 7 world (process 7 900) refl (refl, refl)
      (omega arith) refl refl refl

posix_send_lookup_error_run :
    ((posix_send linux here ended 9 world).0 ≡ err (Error.no_such_process 7))
    × ((is_running linux here (posix_send linux here ended 9 world).1).0 ≡ ok false)
unfolding raise_if_pid_reused init eq
posix_send_lookup_error_run =
    Outcome.posix_send_lookup_error linux here ended here 9 world refl (omega arith) refl refl

posix_send_refused_run :
    ((posix_send linux here forbidden 9 world).1.self ≡ world.self) × (◌≡◌ {A = ℕ} 7 7)
unfolding posix_send raise_if_pid_reused init eq
posix_send_refused_run = Outcome.posix_send_refused linux here forbidden 9 world 7 refl (inl refl)
