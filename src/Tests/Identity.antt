-- ===== src/Tests/Identity.antt =====
-- Identity, equality and `is_running`.
use psutil.Prelude.{
  Option, ℕ, true, false, some, [], ok, err, Error, ◌≡◌, ◌≢◌, ◌⊎◌, ◌↔◌, refl, inl, arith, suc,
}
use psutil.Prelude.Int.{pos}
use psutil.Platform.{Platform}
use psutil.Process.Defs.{Process, Kernel, Kill, blank}
use psutil.Process.Identity.{init, eq, hash_of, is_null}
use psutil.Process.Identity.Equality
use psutil.Process.Identity.Equality.{IsHashed}
use psutil.Process.Identity.Birth
use psutil.Process.Identity.Birth.{IsFresh}
use psutil.Process.Running.{is_running, raise_if_pid_reused, add}
use psutil.Process.Running.Verdict
use psutil.Tests.World.{kernel, process, world}

abbrev linux : Platform
linux = Platform.linux

abbrev here : Kernel
here = kernel 7 100 Kill.delivered

-- PID 7 now belongs to a process that started later.
abbrev taken : Kernel
taken = kernel 7 900 Kill.delivered

abbrev ended : Kernel
ended = kernel 8 900 Kill.delivered

eq_iff_run : (eq (process 7 100) (process 7 900) ≡ true) ↔ (
    (◌≡◌ {A = ℕ} 7 7)
    × ((is_null (some 100) ≡ true)
        ⊎ ((is_null (some 900) ≡ true) ⊎ (◌≡◌ {A = Option ℕ} (some 100) (some 900)))))
eq_iff_run = Equality.eq_iff (process 7 100) (process 7 900)

eq-hash_run :
    ((hash_of suc (process 7 100)).0 ≡ (hash_of suc (process 7 0)).0)
    × IsHashed suc (hash_of suc (process 7 100)).1
unfolding eq
eq-hash_run = Equality.eq-hash suc (process 7 100) (process 7 0) (inl refl) (inl refl) refl

eq_not_transitive_run :
    (eq (process 7 100) (blank 7) ≡ true)
    × (eq (blank 7) (process 7 900) ≡ true)
    × (eq (process 7 100) (process 7 900) ≡ false)
unfolding blank
eq_not_transitive_run =
    Equality.eq_not_transitive (process 7 100) (blank 7) (process 7 900) 99 899 refl refl refl
      (omega arith)

init-IsFresh_run : IsFresh 7 (process 7 100)
unfolding init
init-IsFresh_run = Birth.init-IsFresh linux here 7 refl

init_raises_run :
    (Error.no_such_process 7 ≢ Error.access_denied 7)
    × (Error.no_such_process 7 ≢ Error.zombie_process 7)
unfolding init
init_raises_run = Birth.init_raises linux ended 7 7 refl

is_running_iff_example : ((is_running linux here world).0 ≡ ok true) ↔ (
    (other : Process) × (init linux here false (some (pos 7)) ≡ ok other)
    × (eq world.self other ≡ true))
is_running_iff_example = Verdict.is_running_iff linux here world (refl, refl)

is_running_final_run :
    is_running linux here (is_running linux ended world).1
    ≡ (ok false, (is_running linux ended world).1)
unfolding is_running init
is_running_final_run = Verdict.is_running_final linux ended here world refl

is_running_reused_run :
    ((is_running linux taken world).0 ≡ ok false)
    × ((is_running linux taken world).1.pids_reused ≡ add 7 [])
    × ((raise_if_pid_reused linux here (is_running linux taken world).1).0
        ≡ err (Error.no_such_process 7))
unfolding init eq
is_running_reused_run =
    Verdict.is_running_reused linux taken here world (process 7 900) (refl, refl) refl refl
