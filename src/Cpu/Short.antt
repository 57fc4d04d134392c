-- ===== src/Cpu/Short.antt =====
-- `cpu_times_percent` over an interval of less than a second of CPU time.
use psutil.Prelude.{ℕ, zero, suc, ◌+◌, ◌-◌, ◌*◌, ◌≤◌, ◌<◌, ◌≡◌, List, [], ◌∷◌, arith}
use Prim.Native.Nat.{max}
use psutil.Platform.{Platform}
use psutil.Cpu.{Times, sum, minus_all, deltas, tot_time, nearest, field_percent, calculate_fields}
use psutil.Cpu.Bounds.{nearest-le}

sum-minus_all_self : (xs : List ℕ) → sum (minus_all xs xs) ≡ 0
unfolding minus_all
sum-minus_all_self [] = omega arith
sum-minus_all_self (x ∷ xs) = omega (arith, sum-minus_all_self xs)

-- Readings between which only the idle time went on, by `d` ticks.
abbrev pub idled : ℕ → Times → Times
idled d t = record t { idle = t.idle + d }

tot_time-idled : (os : Platform) (t : Times) (d : ℕ) → tot_time os (deltas t (idled d t)) ≡ d
unfolding tot_time deltas
tot_time-idled os t d = ground (arith, sum-minus_all_self t.others)

max_left : (h all : ℕ) → all ≤ suc h → max (suc h) all ≡ suc h
max_left h all le = omega arith

half_le :
    (h all delta : ℕ)
    → 2 * all ≤ suc h
    → delta ≡ all
    → nearest (1000 * delta) (max (suc h) all) ≤ 500
half_le h all delta short same =
    rw (max_left h all (omega arith)) (nearest-le (1000 * delta) h 500 (omega arith))

field_percent_short :
    (hz all delta : ℕ) → 0 < hz → 2 * all ≤ hz → delta ≡ all → field_percent hz all delta ≤ 500
unfolding field_percent
field_percent_short zero all delta positive short same = absurd (omega arith)
field_percent_short (suc h) all delta positive short same =
    omega (arith, half_le h all delta short same)

-- On a machine that is idle for the whole interval, of at most half a second in all, and where a second
-- has at least one tick, the share of the idle time is reported as at most 50 percent.
pub calculate_fields_short :
    (hz : ℕ) (os : Platform) (t : Times) (d : ℕ)
    → 0 < hz
    → 2 * d ≤ hz
    → (calculate_fields hz os t (idled d t)).idle ≤ 500
unfolding calculate_fields
calculate_fields_short hz os t d positive short =
    rw (tot_time-idled os t d)
      (field_percent_short hz d (t.idle + d - t.idle) positive short (omega arith))

-- No field is reported as more than 100 percent.
pub field_percent-le : (hz all delta : ℕ) → field_percent hz all delta ≤ 1000
unfolding field_percent
field_percent-le hz all delta = omega arith
