-- ===== src/Process/Signals/Outcome.antt =====
-- What a signal does to the object on each outcome of the system call.
use psutil.Prelude.{ℕ, false, ◌≡◌, ◌≢◌, ◌⊎◌, ◌&&◌, arith, ok, err, Error}
use psutil.Platform.{Platform, is_openbsd}
use psutil.Process.Defs.{Kernel, Kill, World}
use psutil.Process.Running.{is_running, raise_if_pid_reused}
use psutil.Process.Signals.{posix_send}

-- When the check passes and the kernel no longer knows the process (and it is not a zombie of
-- OpenBSD), the signal raises "no such process", and from then on the object answers that it is not
-- running, whatever the kernel says.
pub posix_send_lookup_error :
    (os : Platform) (k k' later : Kernel) (sig : ℕ) (w : World)
    → raise_if_pid_reused os k w ≡ (ok tt, w)
    → w.pid ≢ 0
    → k'.kill w.pid sig ≡ Kill.lookup_error
    → (is_openbsd os && k'.pid_exists w.pid) ≡ false
    → ((posix_send os k k' sig w).0 ≡ err (Error.no_such_process w.pid))
      × ((is_running os later (posix_send os k k' sig w).1).0 ≡ ok false)
unfolding posix_send is_running
posix_send_lookup_error os k k' later sig w passed ne lost alive = ground arith

-- A signal that is not permitted, or that meets a zombie on OpenBSD, leaves the object as it was.
pub posix_send_refused :
    (os : Platform) (k k' : Kernel) (sig : ℕ) (w : World) (n : ℕ)
    → raise_if_pid_reused os k w ≡ (ok tt, w)
    → ((posix_send os k k' sig w).0 ≡ err (Error.access_denied n))
      ⊎ ((posix_send os k k' sig w).0 ≡ err (Error.zombie_process n))
    → ((posix_send os k k' sig w).1.self ≡ w.self) × (n ≡ w.pid)
unfolding posix_send
posix_send_refused os k k' sig w n passed refused = ground arith
