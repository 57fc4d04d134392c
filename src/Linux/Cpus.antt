-- ===== src/Linux/Cpus.antt =====
-- psutil/_pslinux.py: `_parse_cpulist`, `cpu_stats`, `Process.cpu_affinity_set` and
-- `Process.ionice_set`.
pub mod Lists
use psutil.Prelude.{
  ℕ, zero, suc, ◌+◌, ◌-◌, Bool, true, false, ◌&&◌, ◌||◌, not, Option, none, some, List, [], ◌∷◌,
  ◌++◌, Result, ok, err, Error, ◌>>=◌, ltb, leb, ◌==◌, if◌then◌else◌, take, drop, elem,
}
use psutil.Prelude.Int.{ℤ, pos, negsuc}
use psutil.Text.{Bytes, b, find, split, strip, starts_with, words, to_int}
use psutil.Linux.Files.{OsError, Raised, Outcome, value, raised, known, raw}
use psutil.Linux.Stat.{field}

-- `range(start, start + n)`
unfoldable pub range_from : ℕ → ℕ → List ℕ
range_from start zero = []
range_from start (suc n) = start ∷ range_from (suc start) n

-- `range(start, end + 1)`, unless it would be empty.
abbrev pub span : ℕ → ℕ → Result (List ℕ)
span start end =
    if ltb end start then err Error.value_error else ok (range_from start (end + 1 - start))

-- A chunk that is not empty, and where its first dash is.
abbrev pub one_or_span : Option ℕ → Bytes → Result (List ℕ)
one_or_span none chunk = do n ← to_int 10 chunk; ok (n ∷ [])
one_or_span (some i) chunk = do
  start ← to_int 10 (take i chunk)
  end ← to_int 10 (drop (i + 1) chunk)
  span start end

abbrev pub chunk_cpus : Bytes → Result (List ℕ)
chunk_cpus [] = ok []
chunk_cpus (c ∷ chunk) = one_or_span (find b'-' (c ∷ chunk)) (c ∷ chunk)

-- The loop over the chunks.
unfoldable pub all_chunks : List Bytes → Result (List ℕ)
unfolding range_from find strip to_int
all_chunks [] = ok []
all_chunks (chunk ∷ chunks) = do
  cpus ← chunk_cpus (strip chunk)
  more ← all_chunks chunks
  ok (cpus ++ more)

abbrev pub unless_empty : Bytes → Result (List ℕ)
unless_empty [] = ok []
unless_empty (c ∷ cpulist) = all_chunks (split b',' (c ∷ cpulist))

unfoldable pub parse_cpulist : Bytes → Result (List ℕ)
unfolding all_chunks split strip
parse_cpulist cpulist = unless_empty (strip cpulist)

-- The numbers that `cpu_stats` looks for; `none` is None.
pub record CpuStats : Type 0 where
  pub ctx_switches : Option ℕ
  pub interrupts : Option ℕ
  pub soft_interrupts : Option ℕ

abbrev pub second_word : Bytes → Result ℕ
second_word line = do w ← field (words line) 1; to_int 10 w

unfoldable pub note_stat : Bytes → CpuStats → Result CpuStats
unfolding starts_with words to_int
note_stat line s =
    if starts_with line (b "ctxt")
    then (do n ← second_word line; ok (record s { ctx_switches = some n }))
    else if starts_with line (b "intr")
    then (do n ← second_word line; ok (record s { interrupts = some n }))
    else if starts_with line (b "softirq")
    then (do n ← second_word line; ok (record s { soft_interrupts = some n }))
    else ok s

abbrev is_some : Option ℕ → Bool
is_some none = false
is_some (some n) = true

abbrev pub all_found : CpuStats → Bool
all_found s = is_some s.ctx_switches && is_some s.soft_interrupts && is_some s.interrupts

-- The loop of `cpu_stats` over the lines of /proc/stat. The number of system calls is 0.
unfoldable pub cpu_stats : List Bytes → CpuStats → Result CpuStats
unfolding note_stat
cpu_stats [] s = ok s
cpu_stats (line ∷ lines) s = do
  t ← note_stat line s
  let rest = cpu_stats lines t in if all_found t then ok t else rest

abbrev pub or_all : ℕ → Result (List ℕ) → List ℕ
or_all n (ok cpus) = cpus
or_all n (err e) = range_from 0 n

-- `_get_eligible_cpus`: what the status file has behind `Cpus_allowed_list:`, if it has that line, and
-- the number of CPUs.
unfoldable pub eligible_cpus : Option Bytes → ℕ → List ℕ
unfolding parse_cpulist range_from
eligible_cpus none n = range_from 0 n
eligible_cpus (some cpulist) n = or_all n (parse_cpulist cpulist)

-- The loop over the CPUs in the handler, before the `raise` of `e`.
unfoldable pub first_invalid : List ℕ → ℕ → Raised → List ℕ → Outcome (Unit {0})
first_invalid eligible n e [] = raised e
first_invalid eligible n e (cpu ∷ cpus) =
    let rest = first_invalid eligible n e cpus in
    if not (ltb cpu n) || not (elem cpu eligible) then raised (known Error.value_error) else rest

-- `cpu_affinity_set`, of the answer of the C function.
unfoldable pub cpu_affinity_set :
    Outcome (Unit {0}) → Option Bytes → ℕ → List ℕ → Outcome (Unit {0})
unfolding eligible_cpus first_invalid
cpu_affinity_set (raised (known Error.value_error)) allowed n cpus =
    first_invalid (eligible_cpus allowed n) n (known Error.value_error) cpus
cpu_affinity_set (raised (raw OsError.invalid)) allowed n cpus =
    first_invalid (eligible_cpus allowed n) n (raw OsError.invalid) cpus
cpu_affinity_set answer allowed n cpus = answer

pub data IoClass : Type 0 where
  no_class realtime best_effort idle : IoClass

abbrev pub takes_value : IoClass → Bool
takes_value IoClass.no_class = false
takes_value IoClass.idle = false
takes_value _ = true

-- `ionice_set`, where a `value` of None is 0: the class and value that the C function is called with.
unfoldable pub ionice_set : IoClass → ℤ → Result (IoClass × ℕ)
ionice_set class (negsuc v) = err Error.value_error
ionice_set class (pos zero) = ok (class, 0)
ionice_set class (pos (suc v)) =
    if not (takes_value class) || ltb 7 (suc v) then err Error.value_error else ok (class, suc v)
