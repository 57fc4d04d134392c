-- ===== src/Cpu/OneProcess.antt =====
-- psutil/__init__.py: `Process.cpu_percent`.
pub mod Share
use psutil.Prelude.{
  ℕ, zero, suc, ◌+◌, ◌*◌, Bool, true, false, Option, none, some, Result, ok, err, Error, Exec,
  if◌then◌else◌,
}
use psutil.Prelude.Int.{ℤ, pos, negsuc, pos_part, neg_part, sub_ℕ, ◌+ℤ◌, ◌-ℤ◌, ◌*ℤ◌}
use psutil.Cpu.{nearest, is_blocking, is_negative}

-- `user` and `system` of the times of one process, in ticks.
pub record ProcTimes : Type 0 where
  pub user : ℕ
  pub system : ℕ

-- `_last_sys_cpu_times` and `_last_proc_cpu_times`
pub record LastTimes : Type 0 where
  pub sys : Option ℕ
  pub proc : Option ProcTimes

-- `cpu_count() or 1`
abbrev pub cpus : Option ℕ → ℕ
cpus (some (suc n)) = suc n
cpus _ = 1

-- `round(x, 1)` of a ratio in tenths, on any signs; 0 for `ZeroDivisionError`.
unfoldable pub signed_ratio : ℤ → ℤ → ℤ
unfolding nearest
signed_ratio n (pos zero) = pos 0
signed_ratio (pos n) (pos (suc d)) = pos (nearest n (suc d))
signed_ratio (pos n) (negsuc d) = sub_ℕ 0 (nearest n (suc d))
signed_ratio (negsuc n) (pos (suc d)) = sub_ℕ 0 (nearest (suc n) (suc d))
signed_ratio (negsuc n) (negsuc d) = pos (nearest (suc n) (suc d))

-- `(pt2.user - pt1.user) + (pt2.system - pt1.system)`
unfoldable pub delta_proc : ProcTimes → ProcTimes → ℤ
unfolding ◌+ℤ◌
delta_proc p1 p2 = sub_ℕ p2.user p1.user +ℤ sub_ℕ p2.system p1.system

-- The percentage, in tenths: `delta_proc / delta_time * 100 * num_cpus`.
unfoldable pub share : ℕ → ℕ → ℕ → ProcTimes → ProcTimes → ℤ
unfolding signed_ratio delta_proc ◌*ℤ◌
share n st1 st2 pt1 pt2 = signed_ratio (pos (1000 * n) *ℤ delta_proc pt1 pt2) (sub_ℕ st2 st1)

abbrev remember : ℕ → ProcTimes → LastTimes
remember st pt = record { sys = some st; proc = some pt }

-- The part without an interval; the first call has nothing to compare with.
unfoldable since_last : ℕ → ℕ → ProcTimes → Option ℕ → Option ProcTimes → ℤ
unfolding share
since_last n st2 pt2 (some st1) (some pt1) = share n st1 st2 pt1 pt2
since_last n st2 pt2 (some st1) none = pos 0
since_last n st2 pt2 none _ = pos 0

-- `count` is what `cpu_count()` answers; `t1`, `p1` and `t2`, `p2` are the readings of `_timer()` and
-- of the process's times, the first pair only taken with an interval.
unfoldable pub proc_cpu_percent :
    Option ℤ → Option ℕ → ℕ → ProcTimes → ℕ → ProcTimes → Exec LastTimes ℤ
unfolding since_last share
proc_cpu_percent interval count t1 p1 t2 p2 l =
    let n = cpus count in
    if is_negative interval then (err Error.value_error, l) else (
      ok (
          if is_blocking interval
          then share n (t1 * n) (t2 * n) p1 p2
          else since_last n (t2 * n) p2 l.sys l.proc),
      remember (t2 * n) p2,
    )
