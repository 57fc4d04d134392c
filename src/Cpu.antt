-- ===== src/Cpu.antt =====
-- psutil/__init__.py: `_cpu_tot_time`, `_cpu_busy_time`, `_cpu_times_deltas`, `cpu_percent` and
-- `cpu_times_percent`. Times are counted in clock ticks, percentages in tenths of a percent; the
-- floats of the source are replaced by exact fractions, rounded to one decimal as `round` does.
pub mod Bounds
pub mod Threads
pub mod Short
pub mod OneProcess
use psutil.Prelude.{
  ℕ, zero, suc, ◌+◌, ◌-◌, ◌*◌, ◌/◌, ◌%◌, Bool, true, false, Option, none, some, List, [], ◌∷◌,
  Result, ok, err, Error, Exec, ltb, if◌then◌else◌, map, ◌>>=◌, ite, ℕ_discrete,
}
use Prim.Native.Nat.{max, min}
use psutil.Prelude.Int.{ℤ, pos, negsuc}
use psutil.Prelude.Dict.{Dict, lookup, insert}
use psutil.Platform.{Platform, is_linux}

-- A system CPU times tuple: the fields that are told apart, and the others of the platform. A field
-- that a platform lacks is 0 here, which is what the source takes for it.
pub record Times : Type 0 where
  pub user : ℕ
  pub system : ℕ
  pub idle : ℕ
  pub nice : ℕ
  pub iowait : ℕ
  pub guest : ℕ
  pub guest_nice : ℕ
  pub others : List ℕ

abbrev pub sum : List ℕ → ℕ
sum [] = 0
sum (x ∷ xs) = x + sum xs

-- `sum(times)`
unfoldable pub sum_times : Times → ℕ
sum_times t = t.user + t.system + t.idle + t.nice + t.iowait + t.guest + t.guest_nice + sum t.others

-- `_cpu_tot_time`
unfoldable pub tot_time : Platform → Times → ℕ
unfolding sum_times
tot_time os t = if is_linux os then sum_times t - t.guest - t.guest_nice else sum_times t

-- `_cpu_busy_time`
unfoldable pub busy_time : Platform → Times → ℕ
unfolding tot_time
busy_time os t = tot_time os t - t.idle - t.iowait

-- The loop of `_cpu_times_deltas` over the other fields; `-` stops at 0 as the source does.
unfoldable pub minus_all : List ℕ → List ℕ → List ℕ
minus_all (b ∷ bs) (a ∷ xs) = (b - a) ∷ minus_all bs xs
minus_all _ _ = []

-- `_cpu_times_deltas(t1, t2)`, for tuples with the same fields
unfoldable pub deltas : Times → Times → Times
unfolding minus_all
deltas t1 t2 = record {
  user = t2.user - t1.user;
  system = t2.system - t1.system;
  idle = t2.idle - t1.idle;
  nice = t2.nice - t1.nice;
  iowait = t2.iowait - t1.iowait;
  guest = t2.guest - t1.guest;
  guest_nice = t2.guest_nice - t1.guest_nice;
  others = minus_all t2.others t1.others;
}

-- n / d to the nearest whole number, a tie to the even one; `none` is `ZeroDivisionError`.
unfoldable pub nearest : ℕ → ℕ → ℕ
nearest n d =
    if ltb (2 * (n % d)) d
    then n / d
    else if ltb d (2 * (n % d))
    then n / d + 1
    else n / d + (n / d) % 2

unfoldable pub round_ratio : ℕ → ℕ → Option ℕ
unfolding nearest
round_ratio n zero = none
round_ratio n (suc d) = some (nearest n (suc d))

abbrev pub or_zero : Option ℕ → ℕ
or_zero none = 0
or_zero (some n) = n

-- `calculate` of `cpu_percent`
unfoldable pub calculate : Platform → Times → Times → ℕ
unfolding deltas busy_time round_ratio
calculate os t1 t2 =
    let d = deltas t1 t2 in or_zero (round_ratio (1000 * busy_time os d) (tot_time os d))

-- One field of `calculate` of `cpu_times_percent`. `hz` ticks make a second, and `max(1, all_delta)`
-- is taken in seconds.
unfoldable pub field_percent : ℕ → ℕ → ℕ → ℕ
unfolding nearest
field_percent hz all delta = min (max 0 (nearest (1000 * delta) (max hz all))) 1000

unfoldable pub calculate_fields : ℕ → Platform → Times → Times → Times
unfolding field_percent deltas tot_time
calculate_fields hz os t1 t2 =
    let d = deltas t1 t2 in
    let share = field_percent hz (tot_time os d) in
    record {
      user = share d.user;
      system = share d.system;
      idle = share d.idle;
      nice = share d.nice;
      iowait = share d.iowait;
      guest = share d.guest;
      guest_nice = share d.guest_nice;
      others = map share d.others;
    }

-- `zip(tot1, tot2)` with a `calculate` for each pair
unfoldable pub zip_with : {A : Type 0} → (Times → Times → A) → List Times → List Times → List A
zip_with f (a ∷ l) (b ∷ r) = f a b ∷ zip_with f l r
zip_with f _ _ = []

abbrev is_blocking : Option ℤ → Bool
is_blocking (some (pos (suc n))) = true
is_blocking _ = false

abbrev is_negative : Option ℤ → Bool
is_negative (some (negsuc n)) = true
is_negative _ = false

abbrev pub or_else : {A : Type 0} → Option A → A → A
or_else none a = a
or_else (some b) a = b

abbrev pub or_else_list : {A : Type 0} → Option (List A) → List A → List A
or_else_list (some (b ∷ l)) a = b ∷ l
or_else_list _ a = a

-- `_last_cpu_times` and `_last_per_cpu_times`, by thread, which `cpu_times_percent` has copies of.
pub record Last : Type 0 where
  pub total : Dict ℕ Times
  pub per_cpu : Dict ℕ (List Times)

-- The shape that `cpu_percent` and `cpu_times_percent` share. `before` is what `cpu_times()` answers
-- if it is called first (before the sleep, or where nothing is stored), `now` what it answers last.
module _ {A : Type 0} (f : Times → Times → A) (interval : Option ℤ) (tid : ℕ) where
  unfoldable pub measure : Times → Times → Exec Last A
  measure before now l = if is_negative interval then (err Error.value_error, l) else (
    ok (
        f (if is_blocking interval then before else or_else (lookup ℕ_discrete tid l.total) before)
          now),
    record l { total = insert ℕ_discrete tid now l.total },
  )

  unfoldable pub measure_each : List Times → List Times → Exec Last (List A)
  unfolding zip_with
  measure_each before now l = if is_negative interval then (err Error.value_error, l) else (
    ok (
        zip_with f
          (if is_blocking interval
            then before
            else or_else_list (lookup ℕ_discrete tid l.per_cpu) before)
          now),
    record l { per_cpu = insert ℕ_discrete tid now l.per_cpu },
  )

-- `cpu_percent(interval)` and `cpu_percent(interval, percpu=True)`
unfoldable pub cpu_percent : Platform → Option ℤ → ℕ → Times → Times → Exec Last ℕ
unfolding measure calculate
cpu_percent os interval tid = measure (calculate os) interval tid

unfoldable pub cpu_percent_each :
    Platform → Option ℤ → ℕ → List Times → List Times → Exec Last (List ℕ)
unfolding measure_each calculate
cpu_percent_each os interval tid = measure_each (calculate os) interval tid

-- `cpu_times_percent(interval)` and `cpu_times_percent(interval, percpu=True)`
unfoldable pub cpu_times_percent : ℕ → Platform → Option ℤ → ℕ → Times → Times → Exec Last Times
unfolding measure calculate_fields
cpu_times_percent hz os interval tid = measure (calculate_fields hz os) interval tid

unfoldable pub cpu_times_percent_each :
    ℕ → Platform → Option ℤ → ℕ → List Times → List Times → Exec Last (List Times)
unfolding measure_each calculate_fields
cpu_times_percent_each hz os interval tid = measure_each (calculate_fields hz os) interval tid
