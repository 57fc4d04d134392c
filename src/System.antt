-- ===== src/System.antt =====
-- psutil/__init__.py: `cpu_count`, `cpu_freq`, `virtual_memory` with the total that
-- `Process.memory_percent` reads, and `sensors_temperatures`. The platform module's answers are
-- arguments.
pub mod Facts
use psutil.Prelude.{
  ℕ, zero, suc, ◌+◌, ◌*◌, Bool, true, false, ◌&&◌, not, Option, none, some, List, [], ◌∷◌, map,
  Result, ok, err, Error, Exec, if◌then◌else◌, length,
}
use psutil.Prelude.Int.{ℤ, pos, negsuc, ◌+ℤ◌, ◌*ℤ◌}
use psutil.Prelude.Dict.{Dict}
use psutil.Text.{Bytes}

-- `if ret is not None and ret < 1: ret = None`
abbrev pub if_positive : Option ℤ → Option ℤ
if_positive none = none
if_positive (some (pos zero)) = none
if_positive (some (pos (suc n))) = some (pos (suc n))
if_positive (some (negsuc n)) = none

unfoldable pub cpu_count : Bool → Option ℤ → Option ℤ → Option ℤ
cpu_count logical count_logical count_cores =
    if_positive (if logical then count_logical else count_cores)

-- `scpufreq`, with frequencies as whole numbers of a small unit.
pub record Freq : Type 0 where
  pub current : ℕ
  pub min : Option ℕ
  pub max : Option ℕ

-- `currs`, `mins`, `maxs`, `set_none`
pub record FreqSums : Type 0 where
  pub currs : ℕ
  pub mins : ℕ
  pub maxs : ℕ
  pub set_none : Bool

abbrev pub with_limits : Option ℕ → Option ℕ → FreqSums → FreqSums
with_limits (some lo) (some hi) s = record s { mins = s.mins + lo; maxs = s.maxs + hi }
with_limits none hi s = record s { set_none = true }
with_limits (some lo) none s = record s { set_none = true }

-- The body of the loop.
abbrev pub note_freq : Freq → FreqSums → FreqSums
note_freq cpu s = with_limits cpu.min cpu.max (record s { currs = s.currs + cpu.current })

unfoldable pub sum_freqs : List Freq → FreqSums → FreqSums
sum_freqs [] s = s
sum_freqs (cpu ∷ ret) s = sum_freqs ret (note_freq cpu s)

-- What `cpu_freq` returns: a list, None, one tuple, or means, each the quotient of a sum and of the
-- number of CPUs.
pub data FreqAnswer : Type 0 where
  each_cpu : List Freq → FreqAnswer
  undetermined : FreqAnswer
  single : Freq → FreqAnswer
  means : ℕ → ℕ → Option (ℕ × ℕ) → FreqAnswer

abbrev pub mean_of : ℕ → FreqSums → FreqAnswer
mean_of n s = means n s.currs (if s.set_none then none else some (s.mins, s.maxs))

abbrev pub no_sums : FreqSums
no_sums = record { currs = 0; mins = 0; maxs = 0; set_none = false }

abbrev pub overall : List Freq → FreqAnswer
overall [] = undetermined
overall (cpu ∷ []) = single cpu
overall (cpu ∷ cpu' ∷ ret) =
    mean_of (length (cpu ∷ cpu' ∷ ret)) (sum_freqs (cpu ∷ cpu' ∷ ret) no_sums)

unfoldable pub cpu_freq : Bool → List Freq → FreqAnswer
unfolding sum_freqs
cpu_freq percpu ret = if percpu then each_cpu ret else overall ret

-- `_TOTAL_PHYMEM`, and `virtual_memory`, of the total that the platform module reports.
abbrev pub Phymem : Type 0
Phymem = Option ℕ

abbrev pub total_memory : Result ℕ → Exec Phymem ℕ
total_memory (ok total) cached = (ok total, some total)
total_memory (err e) cached = (err e, cached)

-- `_TOTAL_PHYMEM or virtual_memory().total`
abbrev pub cached_total : Result ℕ → Exec Phymem ℕ
cached_total answer none = total_memory answer none
cached_total answer (some zero) = total_memory answer (some zero)
cached_total answer (some (suc n)) = (ok (suc n), some (suc n))

abbrev pub percentage : ℕ → Result ℕ × Phymem → Result (ℕ × ℕ) × Phymem
percentage n (ok zero, cached) = (err Error.value_error, cached)
percentage n (ok (suc total), cached) = (ok (100 * n, suc total), cached)
percentage n (err e, cached) = (err e, cached)

-- The end of `memory_percent`, of the value that was asked for: the quotient that is returned.
unfoldable pub memory_percent : ℕ → Result ℕ → Exec Phymem (ℕ × ℕ)
memory_percent n answer cached = percentage n (cached_total answer cached)

-- A temperature in thousandths of a degree, which the answer has in fifths of that: 9 / 5 is exact.
-- label, current, high, critical
abbrev pub Temp : Type 0
Temp = Bytes × (Option ℤ × (Option ℤ × Option ℤ))

unfoldable pub convert : Bool → Option ℤ → Option ℤ
unfolding ◌+ℤ◌ ◌*ℤ◌
convert fahrenheit none = none
convert fahrenheit (some n) = some (if fahrenheit then n *ℤ pos 9 +ℤ pos 160000 else n *ℤ pos 5)

-- Whether a number or None counts as true.
abbrev pub is_nonzero : Option ℤ → Bool
is_nonzero none = false
is_nonzero (some (pos zero)) = false
is_nonzero (some (pos (suc n))) = true
is_nonzero (some (negsuc n)) = true

-- high, critical
abbrev pub filled : Option ℤ → Option ℤ → Option ℤ × Option ℤ
filled high critical =
    if is_nonzero high && not (is_nonzero critical)
    then (high, high)
    else if is_nonzero critical && not (is_nonzero high)
    then (critical, critical)
    else (high, critical)

unfoldable pub shwtemp : Bool → Temp → Temp
unfolding convert
shwtemp fahrenheit (label, (current, (high, critical))) = (
  label,
  (convert fahrenheit current, filled (convert fahrenheit high) (convert fahrenheit critical)),
)

abbrev pub non_empty_temps : Bytes → List Temp → Dict Bytes (List Temp) → Dict Bytes (List Temp)
non_empty_temps name [] ret = ret
non_empty_temps name (t ∷ ts) ret = (name, t ∷ ts) ∷ ret

-- A name without values gets no entry.
unfoldable pub sensors_temperatures : Bool → Dict Bytes (List Temp) → Dict Bytes (List Temp)
unfolding shwtemp
sensors_temperatures fahrenheit [] = []
sensors_temperatures fahrenheit ((name, values) ∷ rawdict) =
    non_empty_temps name (map (shwtemp fahrenheit) values) (sensors_temperatures fahrenheit rawdict)
