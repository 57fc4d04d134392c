-- ===== src/Cpu/OneProcess/Share.antt =====
-- What the number of CPUs does to the percentage of a process.
use psutil.Prelude.{
  ℕ, zero, suc, ◌+◌, ◌-◌, ◌*◌, ◌/◌, ◌%◌, ◌≤◌, ◌<◌, ◌≡◌, refl, ap, sym, ◌∙◌, Option, none, some, ok,
  arith, ltb,
}
use native.Mathlib.Nat.{mul-div-mul_left, mul_comm, mul-sub, div-add-mod, mul-le-mul_right}
use psutil.Prelude.Int.{pos, sub_ℕ, ◌*ℤ◌, ◌+ℤ◌}
use psutil.Cpu.{nearest, or_zero, round_ratio}
use psutil.Cpu.OneProcess.{
  cpus, ProcTimes, LastTimes, signed_ratio, delta_proc, share, proc_cpu_percent, since_last,
}

scaled : (k n d q r m : ℕ) → suc d * q + r ≡ n → suc k * suc d * q + m ≡ suc k * n → m ≡ suc k * r
scaled k n d q r m h e = omega (arith, e ∙ ap (λ (t : ℕ). suc k * t) (sym h))

mod-mul_left : (k n d : ℕ) → (suc k * n) % (suc k * suc d) ≡ suc k * (n % suc d)
mod-mul_left k n d =
    scaled k n d (n / suc d) (n % suc d) ((suc k * n) % (suc k * suc d)) (div-add-mod n (suc d)) (
      rw (sym (mul-div-mul_left {m = suc k} n (suc d) (omega arith)))
        (div-add-mod (suc k * n) (suc k * suc d)))

lt_mul : (k a b : ℕ) → a < b → suc k * a < suc k * b
lt_mul k a b h = omega (arith, mul-le-mul_right {m = suc a} {n = b} (suc k) (omega arith))

le_mul : (k a b : ℕ) → a ≤ b → suc k * a ≤ suc k * b
le_mul k a b h = omega (arith, mul-le-mul_right {m = a} {n = b} (suc k) (omega arith))

ltb-mul_left : (k a b : ℕ) → ltb (suc k * a) (suc k * b) ≡ ltb a b
ltb-mul_left k a b = ground (arith, lt_mul k a b, le_mul k b a)

double : (k a : ℕ) → 2 * (suc k * a) ≡ suc k * (2 * a)
double k a = omega arith

regroup :
    (k used d : ℕ)
    → round_ratio (1000 * suc k * used) (suc k * d)
      ≡ round_ratio (suc k * (1000 * used)) (suc k * d)
regroup k used d = ap (λ (t : ℕ). round_ratio t (suc k * d)) (omega arith)

-- `round` of a fraction does not depend on how far it is reduced.
nearest-mul_left : (k n d : ℕ) → nearest (suc k * n) (suc k * suc d) ≡ nearest n (suc d)
unfolding nearest
nearest-mul_left k n d = rw (
  mod-mul_left k n d,
  mul-div-mul_left {m = suc k} n (suc d) (omega arith),
  double k (n % suc d),
  ltb-mul_left k (2 * (n % suc d)) (suc d),
  ltb-mul_left k (suc d) (2 * (n % suc d)),
)

round_ratio_pos : (n d : ℕ) → 0 < d → round_ratio n d ≡ some (nearest n d)
unfolding round_ratio
round_ratio_pos n zero h = absurd (omega arith)
round_ratio_pos n (suc d) h = refl

mul_zero_right : (k : ℕ) → suc k * 0 ≡ 0
mul_zero_right k = omega arith

round_ratio-mul_left : (k n d : ℕ) → round_ratio (suc k * n) (suc k * d) ≡ round_ratio n d
unfolding round_ratio
round_ratio-mul_left k n zero = ap (round_ratio (suc k * n)) (mul_zero_right k)
round_ratio-mul_left k n (suc d) =
    round_ratio_pos (suc k * n) (suc k * suc d) (omega arith) ∙ ap some (nearest-mul_left k n d)

signed_ratio_pos : (n d : ℕ) → signed_ratio (pos n) (pos d) ≡ pos (or_zero (round_ratio n d))
unfolding signed_ratio round_ratio
signed_ratio_pos n zero = refl
signed_ratio_pos n (suc d) = refl

sub_ℕ_le : (a b c : ℕ) → a ≤ b → b - a ≡ c → sub_ℕ b a ≡ pos c
sub_ℕ_le a b c h e = ground arith

delta_proc_forward :
    (p1 p2 : ProcTimes)
    → p1.user ≤ p2.user
    → p1.system ≤ p2.system
    → delta_proc p1 p2 ≡ pos (p2.user - p1.user + (p2.system - p1.system))
unfolding delta_proc ◌+ℤ◌
delta_proc_forward p1 p2 hu hs =
    rw
      (
        sub_ℕ_le p1.user p2.user (p2.user - p1.user) hu refl,
        sub_ℕ_le p1.system p2.system (p2.system - p1.system) hs refl,
      )
      (sub_ℕ_le 0 (p2.user - p1.user + (p2.system - p1.system))
        (p2.user - p1.user + (p2.system - p1.system)) (omega arith) (omega arith))

mul_pos : (a b : ℕ) → pos a *ℤ pos b ≡ pos (a * b)
unfolding ◌*ℤ◌
mul_pos a b = sub_ℕ_le (a * 0 + 0 * b) (a * b + 0 * 0) (a * b) (omega arith) (omega arith)

elapsed : (k t1 t2 : ℕ) → t2 * suc k - t1 * suc k ≡ suc k * (t2 - t1)
elapsed k t1 t2 = rw (mul_comm t2 (suc k), mul_comm t1 (suc k)) (sym (mul-sub (suc k) t2 t1))

share_forward :
    (k t1 t2 : ℕ) (p1 p2 : ProcTimes)
    → t1 ≤ t2
    → p1.user ≤ p2.user
    → p1.system ≤ p2.system
    → share (suc k) (t1 * suc k) (t2 * suc k) p1 p2
      ≡ pos (or_zero (round_ratio (1000 * (p2.user - p1.user + (p2.system - p1.system))) (t2 - t1)))
unfolding share
share_forward k t1 t2 p1 p2 ht hu hs =
    let used = p2.user - p1.user + (p2.system - p1.system) in
    rw
      (
        delta_proc_forward p1 p2 hu hs,
        mul_pos (1000 * suc k) used,
        sub_ℕ_le (t1 * suc k) (t2 * suc k) (suc k * (t2 - t1))
            (mul-le-mul_right {m = t1} {n = t2} (suc k) ht) (elapsed k t1 t2),
        (signed_ratio_pos (1000 * suc k * used) (suc k * (t2 - t1))),
      )
      (ap (λ (r : Option ℕ). pos (or_zero r))
        (regroup k used (t2 - t1) ∙ round_ratio-mul_left k (1000 * used) (t2 - t1)))

share_cpus :
    (n t1 t2 : ℕ) (p1 p2 : ProcTimes)
    → 0 < n
    → t1 ≤ t2
    → p1.user ≤ p2.user
    → p1.system ≤ p2.system
    → share n (t1 * n) (t2 * n) p1 p2
      ≡ pos (or_zero (round_ratio (1000 * (p2.user - p1.user + (p2.system - p1.system))) (t2 - t1)))
share_cpus zero t1 t2 p1 p2 h = absurd (omega arith)
share_cpus (suc k) t1 t2 p1 p2 h = share_forward k t1 t2 p1 p2

cpus_pos : (count : Option ℕ) → 0 < cpus count
cpus_pos none = omega arith
cpus_pos (some zero) = omega arith
cpus_pos (some (suc n)) = omega arith

-- Two calls without an interval, where neither the timer nor the process's times go back: the second
-- answers the share of one CPU that the process used since the first, whatever the number of CPUs.
pub proc_cpu_percent_one_cpu :
    (count : Option ℕ) (t t' t1 t2 : ℕ) (p p' p1 p2 : ProcTimes) (l : LastTimes)
    → t1 ≤ t2
    → p1.user ≤ p2.user
    → p1.system ≤ p2.system
    → (proc_cpu_percent none count t' p' t2 p2 (proc_cpu_percent none count t p t1 p1 l).1).0
      ≡ ok (
          pos (
            or_zero (round_ratio (1000 * (p2.user - p1.user + (p2.system - p1.system))) (t2 - t1))))
unfolding proc_cpu_percent since_last
proc_cpu_percent_one_cpu count t t' t1 t2 p p' p1 p2 l ht hu hs =
    ap ok (share_cpus (cpus count) t1 t2 p1 p2 (cpus_pos count) ht hu hs)
