-- ===== src/Linux/Memory.antt =====
-- psutil/_pslinux.py: `virtual_memory`, `calculate_avail_vmem` and `swap_memory`;
-- psutil/_common.py: `usage_percent`. Sizes are bytes, percentages tenths of a percent.
pub mod Bounds
use psutil.Prelude.{
  ℕ, zero, suc, ◌+◌, ◌-◌, ◌*◌, ◌/◌, Bool, true, false, Option, none, some, List, [], ◌∷◌, ◌++◌,
  Result, ok, err, Error, ◌>>=◌, if◌then◌else◌, take, drop, get_elem?, ltb, ite,
}
use Prim.Native.Nat.{min}
use psutil.Prelude.Int.{ℤ, pos, negsuc, sub_ℕ, ◌+ℤ◌, ◌-ℤ◌}
use psutil.Prelude.Dict.{Dict, lookup, insert}
use psutil.Text.{Bytes, b, find, words, split, strip, starts_with, to_int}
use psutil.Environ.{same_bytes}
use psutil.Cpu.OneProcess.{signed_ratio}
use psutil.Linux.Files.{Read, content, failed}
use psutil.Linux.Stat.{field}

-- `usage_percent(used, total, round_=1)`
unfoldable pub usage_percent : ℤ → ℕ → ℤ
unfolding signed_ratio
usage_percent (pos n) total = signed_ratio (pos (1000 * n)) (pos total)
usage_percent (negsuc n) total = signed_ratio (sub_ℕ 0 (1000 * suc n)) (pos total)

abbrev pub Mems : Type 0
Mems = Dict Bytes ℕ

-- One line of /proc/meminfo: `key, value = line.split(b':', 1)`.
abbrev pub after_colon : Option ℕ → Bytes → Mems → Result Mems
after_colon none line mems = err Error.value_error
after_colon (some i) line mems = do
  w ← field (words (drop (i + 1) line)) 0
  n ← to_int 10 w
  ok (insert same_bytes (take i line ++ b ":") (n * 1024) mems)

unfoldable pub parse_meminfo : List Bytes → Mems → Result Mems
unfolding find words to_int
parse_meminfo [] mems = ok mems
parse_meminfo (line ∷ lines) mems = do
  mems' ← after_colon (find b':' line) line mems
  parse_meminfo lines mems'

-- `mems[key]`, `mems.get(key)`
unfoldable pub get : Bytes → Mems → Option ℕ
unfolding same_bytes
get key mems = lookup same_bytes key mems

abbrev pub or_key_error : Option ℕ → Result ℕ
or_key_error none = err Error.key_error
or_key_error (some n) = ok n

abbrev pub or_zero : Option ℕ → ℕ
or_zero none = 0
or_zero (some n) = n

-- The sum of the `low` lines of /proc/zoneinfo, in pages.
unfoldable pub watermark : List Bytes → Result ℕ
unfolding strip starts_with words to_int
watermark [] = ok 0
watermark (line ∷ lines) =
    if starts_with (strip line) (b "low")
    then (do
      w ← field (words (strip line)) 1
      n ← to_int 10 w
      rest ← watermark lines
      ok (n + rest))
    else watermark lines

-- `int()` of half of a number.
abbrev pub half : ℤ → ℤ
half (pos n) = pos (n / 2)
half (negsuc n) = sub_ℕ 0 (suc n / 2)

-- Twice `avail`, so that the halves are whole; `low` is `watermark_low`.
unfoldable pub twice_avail : ℕ → ℕ → ℕ → ℕ → ℕ → ℤ
twice_avail free active inactive slab low =
    sub_ℕ (2 * free + 2 * (active + inactive) + 2 * slab)
      (2 * low + min (active + inactive) (2 * low) + min slab (2 * low))

abbrev pub estimate : ℕ → ℕ → ℕ → ℕ → ℕ → ℤ → Read (List Bytes) → Result ℤ
estimate pagesize free active inactive slab fallback (failed e) = ok fallback
estimate pagesize free active inactive slab fallback (content lines) = do
  low ← watermark lines
  ok (half (twice_avail free active inactive slab (low * pagesize)))

abbrev pub with_lru : ℕ → ℕ → ℤ → Read (List Bytes) → Option ℕ → Option ℕ → Option ℕ → Result ℤ
with_lru pagesize free fallback zoneinfo (some active) (some inactive) (some slab) =
    estimate pagesize free active inactive slab fallback zoneinfo
with_lru pagesize free fallback zoneinfo none _ _ = ok fallback
with_lru pagesize free fallback zoneinfo (some active) none _ = ok fallback
with_lru pagesize free fallback zoneinfo (some active) (some inactive) none = ok fallback

-- `calculate_avail_vmem`; an `OSError` at /proc/zoneinfo selects the fallback.
unfoldable pub calculate_avail_vmem : ℕ → Read (List Bytes) → Mems → Result ℤ
unfolding get watermark twice_avail
calculate_avail_vmem pagesize zoneinfo mems = do
  free ← or_key_error (get (b "MemFree:") mems)
  with_lru pagesize free (pos (free + or_zero (get (b "Cached:") mems))) zoneinfo
      (get (b "Active(file):") mems) (get (b "Inactive(file):") mems) (get (b "SReclaimable:") mems)

pub record Svmem : Type 0 where
  pub total : ℕ
  pub available : ℕ
  pub percent : ℤ
  pub used : ℤ
  pub free : ℕ
  pub active : ℕ
  pub inactive : ℕ
  pub buffers : ℕ
  pub cached : ℕ
  pub shared : ℕ
  pub slab : ℕ

-- `MemAvailable`, estimated where it is missing or 0.
abbrev pub avail_of : Option ℕ → Result ℤ → Result ℤ
avail_of none estimated = estimated
avail_of (some zero) estimated = estimated
avail_of (some (suc n)) estimated = ok (pos (suc n))

-- The range check: what is below 0 becomes 0, what is above the total becomes `free`.
unfoldable pub clamp : ℕ → ℕ → ℤ → ℕ
clamp total free (negsuc n) = 0
clamp total free (pos n) = if ltb total n then free else n

abbrev pub plus : Option ℕ → ℕ → ℕ
plus none n = 0
plus (some m) n = m + n

abbrev pub first_of : Option ℕ → ℕ → ℕ
first_of none n = n
first_of (some m) n = m

abbrev pub sum_three : Option ℕ → Option ℕ → Option ℕ → ℕ
sum_three (some l) (some m) (some n) = l + m + n
sum_three _ _ _ = 0

-- `virtual_memory`, after /proc/meminfo is parsed; the warning about missing fields is left out.
unfoldable pub virtual_memory : ℕ → Read (List Bytes) → Mems → Result Svmem
unfolding get calculate_avail_vmem clamp usage_percent
virtual_memory pagesize zoneinfo mems = do
  total ← or_key_error (get (b "MemTotal:") mems)
  free ← or_key_error (get (b "MemFree:") mems)
  estimated ← avail_of (get (b "MemAvailable:") mems) (calculate_avail_vmem pagesize zoneinfo mems)
  ok (record {
    total = total;
    available = clamp total free estimated;
    percent = usage_percent (sub_ℕ total (clamp total free estimated)) total;
    used = sub_ℕ total (clamp total free estimated);
    free = free;
    active = or_zero (get (b "Active:") mems);
    inactive = first_of (get (b "Inactive:") mems) (
        sum_three (get (b "Inact_dirty:") mems) (get (b "Inact_clean:") mems)
          (get (b "Inact_laundry:") mems));
    buffers = or_zero (get (b "Buffers:") mems);
    cached = plus (get (b "Cached:") mems) (or_zero (get (b "SReclaimable:") mems));
    shared = first_of (get (b "Shmem:") mems) (or_zero (get (b "MemShared:") mems));
    slab = or_zero (get (b "Slab:") mems);
  })

-- `int(line.split(b' ')[1]) * 4 * 1024`
abbrev pub pages_in : Bytes → Result ℕ
pages_in line = do w ← field (split b' ' line) 1; n ← to_int 10 w; ok (n * 4 * 1024)

-- The two branches of the loop over /proc/vmstat, on what is known of `sin` and `sout`.
unfoldable pub note_line : Bytes → Option ℕ × Option ℕ → Result (Option ℕ × Option ℕ)
unfolding starts_with split to_int
note_line line (sin, sout) =
    if starts_with line (b "pswpin")
    then (do n ← pages_in line; ok (some n, sout))
    else if starts_with line (b "pswpout")
    then (do n ← pages_in line; ok (sin, some n))
    else ok (sin, sout)

-- The test that breaks the loop; `rest` is what the other lines come to.
abbrev pub both_or : Option ℕ × Option ℕ → Result (ℕ × ℕ) → Result (ℕ × ℕ)
both_or (some m, some n) rest = ok (m, n)
both_or (some m, none) rest = rest
both_or (none, _) rest = rest

-- The loop; without both lines both numbers are 0.
unfoldable pub swap_io : List Bytes → Option ℕ × Option ℕ → Result (ℕ × ℕ)
unfolding note_line
swap_io [] known = ok (0, 0)
swap_io (line ∷ lines) known = do
  known' ← note_line line known
  both_or known' (swap_io lines known')

pub record Sswap : Type 0 where
  pub total : ℕ
  pub used : ℤ
  pub free : ℕ
  pub percent : ℤ
  pub sin : ℕ
  pub sout : ℕ

-- `SwapTotal` and `SwapFree`, or what `linux_sysinfo` answers where one is missing.
abbrev pub totals : Option ℕ → Option ℕ → ℕ × ℕ × ℕ → ℕ × ℕ
totals (some total) (some free) sysinfo = (total, free)
totals (some total) none (total', free', unit) = (total' * unit, free' * unit)
totals none _ (total', free', unit) = (total' * unit, free' * unit)

abbrev pub io_of : Read (List Bytes) → Result (ℕ × ℕ)
io_of (failed e) = ok (0, 0)
io_of (content lines) = swap_io lines (none, none)

-- `swap_memory`, after /proc/meminfo is parsed. `sysinfo` are the total, the free part and the unit
-- that the C extension answers.
unfoldable pub swap_memory : ℕ × ℕ × ℕ → Read (List Bytes) → Mems → Result Sswap
unfolding get swap_io usage_percent
swap_memory sysinfo vmstat mems =
    let (total, free) = totals (get (b "SwapTotal:") mems) (get (b "SwapFree:") mems) sysinfo in
    do
      (sin, sout) ← io_of vmstat
      ok (record {
        total = total;
        used = sub_ℕ total free;
        free = free;
        percent = usage_percent (sub_ℕ total free) total;
        sin = sin;
        sout = sout;
      })
