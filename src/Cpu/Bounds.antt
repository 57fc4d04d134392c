-- ===== src/Cpu/Bounds.antt =====
-- Percentages stay between 0 and 100, and split the time as they should.
use psutil.Prelude.{ℕ, zero, suc, ◌+◌, ◌*◌, ◌/◌, ◌%◌, ◌≤◌, ◌≡◌, arith}
use native.Mathlib.Decide.{dec_le}
use psutil.Prelude.{ap}
use native.Mathlib.Nat.{div-add-mod, mul-le-mul_right}
use psutil.Platform.{Platform}
use psutil.Cpu.{Times, tot_time, busy_time, deltas, nearest, round_ratio, or_zero, calculate}

-- Rounding does not leave what a whole number bounds.
div-le : (q r d m : ℕ) → q * suc d + r ≤ m * suc d → (q ≤ m) × ((q ≡ m) → (r ≡ 0))
div-le q r d m h = elim (dec_le q m) [
  | yes le ↦ (le, λ e. omega (arith, ap (λ (t : ℕ). t * suc d) e))
  | no gt ↦ absurd (omega (arith, mul-le-mul_right {m = suc m} {n = q} (suc d) (omega arith)))
]

pub nearest-le : (n d m : ℕ) → n ≤ m * suc d → nearest n (suc d) ≤ m
unfolding nearest
nearest-le n d m h =
    let b = div-le (n / suc d) (n % suc d) d m (omega (arith, div-add-mod n (suc d))) in
    ground (arith, b.0, b.1)

busy-le-tot : (os : Platform) (t : Times) → busy_time os t ≤ tot_time os t
unfolding busy_time
busy-le-tot os t = omega arith

-- The busy time, the idle time and the wait for I/O make up the total, on Linux without the guest
-- times, which are parts of others; nothing is cut off at 0 on the way.
pub busy_idle-tot : (os : Platform) (t : Times) → busy_time os t + t.idle + t.iowait ≡ tot_time os t
unfolding busy_time
busy_idle-tot os t = ground arith

percent-le : (b t : ℕ) → b ≤ t → or_zero (round_ratio (1000 * b) t) ≤ 1000
unfolding round_ratio
percent-le b zero h = omega arith
percent-le b (suc d) h = nearest-le (1000 * b) d 1000 (omega arith)

-- `cpu_percent` answers between 0 and 100 percent (in tenths), whatever the readings are.
pub calculate-le : (os : Platform) (t1 t2 : Times) → calculate os t1 t2 ≤ 1000
unfolding calculate
calculate-le os t1 t2 =
    percent-le (busy_time os (deltas t1 t2)) (tot_time os (deltas t1 t2))
      (busy-le-tot os (deltas t1 t2))
