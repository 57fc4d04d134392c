-- ===== src/System/Facts.antt =====
-- What the system-wide functions promise.
use psutil.Prelude.{
  ℕ, zero, suc, ◌+◌, ◌*◌, ◌≤◌, ◌≡◌, refl, ap, Bool, false, Option, none, some, List, [], ◌∷◌,
  Result, ok, err, arith, length, if◌then◌else◌,
}
use psutil.Prelude.Int.{ℤ}
use psutil.System.{
  Freq, FreqSums, with_limits, note_freq, sum_freqs, no_sums, means, cpu_freq, Phymem,
  memory_percent, Temp, convert, is_nonzero, filled, shwtemp,
}

-- The limits of a CPU are known, and its frequency is between them.
abbrev pub Between : Option ℕ → ℕ → Option ℕ → Type 0
Between (some lo) n (some hi) = (lo ≤ n) × (n ≤ hi)
Between _ n _ = ⊥

abbrev pub AllBetween : List Freq → Type 0
AllBetween [] = Unit
AllBetween (cpu ∷ ret) = Between cpu.min cpu.current cpu.max × AllBetween ret

-- The sums are in order, and no limit was missing.
pub record InOrder (s : FreqSums) : Type 0 where
  pub low : s.mins ≤ s.currs
  pub high : s.currs ≤ s.maxs
  pub known : s.set_none ≡ false

with_limits-InOrder :
    (lo hi : Option ℕ) (n : ℕ) (s : FreqSums)
    → Between lo n hi
    → InOrder s
    → InOrder (with_limits lo hi (record s { currs = s.currs + n }))
with_limits-InOrder (some lo) (some hi) n s h k = record {
  low = omega (arith, h.0, k.low);
  high = omega (arith, h.1, k.high);
  known = k.known;
}
with_limits-InOrder none hi n s h k = absurd h
with_limits-InOrder (some lo) none n s h k = absurd h

sum_freqs-InOrder :
    (ret : List Freq) (s : FreqSums) → AllBetween ret → InOrder s → InOrder (sum_freqs ret s)
unfolding sum_freqs
sum_freqs-InOrder [] s h k = k
sum_freqs-InOrder (cpu ∷ ret) s h k =
    sum_freqs-InOrder ret (note_freq cpu s) h.1
      (with_limits-InOrder cpu.min cpu.max cpu.current s h.0 k)

-- For at least two CPUs, each with known limits and a frequency between them, cpu_freq returns means over
-- their number, and the mean frequency is between the mean limits.
pub cpu_freq-means :
    (cpu cpu' : Freq) (ret : List Freq)
    → AllBetween (cpu ∷ cpu' ∷ ret)
    → (current lo hi : ℕ) × (cpu_freq false (cpu ∷ cpu' ∷ ret)
        ≡ means (length (cpu ∷ cpu' ∷ ret)) current (some (lo, hi)))
      × (lo ≤ current)
      × (current ≤ hi)
unfolding cpu_freq
cpu_freq-means cpu cpu' ret h =
    let k =
      sum_freqs-InOrder (cpu ∷ cpu' ∷ ret) no_sums h
        (record { low = omega arith; high = omega arith; known = refl }) in
    let s = sum_freqs (cpu ∷ cpu' ∷ ret) no_sums in
    (
      s.currs,
      s.mins,
      s.maxs,
      ap
          (λ (t : Bool).
            means (length (cpu ∷ cpu' ∷ ret)) s.currs (if t then none else some (s.mins, s.maxs)))
          k.known,
      k.low,
      k.high,
    )

-- Once memory_percent has returned, the total of the memory that it divided by is kept: a later call returns
-- the quotient by the same total, whatever the platform module would answer then.
pub memory_percent_keeps :
    (n m q total : ℕ) (answer later : Result ℕ) (cached : Phymem)
    → (memory_percent n answer cached).0 ≡ ok (q, total)
    → (memory_percent m later (memory_percent n answer cached).1).0 ≡ ok (100 * m, total)
unfolding memory_percent
memory_percent_keeps n m q total (ok zero) later none h = absurd (ground (arith, h))
memory_percent_keeps n m q total (ok (suc t)) later none h = ground (arith, h)
memory_percent_keeps n m q total (err e) later none h = absurd (ground (arith, h))
memory_percent_keeps n m q total (ok zero) later (some zero) h = absurd (ground (arith, h))
memory_percent_keeps n m q total (ok (suc t)) later (some zero) h = ground (arith, h)
memory_percent_keeps n m q total (err e) later (some zero) h = absurd (ground (arith, h))
memory_percent_keeps n m q total answer later (some (suc t)) h = ground (arith, h)

filled-both :
    (high critical : Option ℤ)
    → is_nonzero (filled high critical).0 ≡ is_nonzero (filled high critical).1
filled-both high critical = ground arith

-- A temperature that sensors_temperatures returns has both thresholds or none, where 0 counts as none.
pub shwtemp-both :
    (fahrenheit : Bool) (t : Temp)
    → is_nonzero (shwtemp fahrenheit t).1.1.0 ≡ is_nonzero (shwtemp fahrenheit t).1.1.1
unfolding shwtemp
shwtemp-both fahrenheit (label, (current, (high, critical))) =
    filled-both (convert fahrenheit high) (convert fahrenheit critical)
