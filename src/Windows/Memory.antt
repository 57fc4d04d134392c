-- ===== src/Windows/Memory.antt =====
-- psutil/_pswindows.py: the dict of `proc_oneshot`, `_get_raw_meminfo`, `memory_info` and
-- `memory_info_ex` of `Process`; `virtual_memory` and `sensors_battery`.
pub mod Totals
use psutil.Prelude.{
  ℕ, zero, suc, ◌-◌, ◌*◌, Bool, true, false, ◌||◌, ◌==◌, Option, none, some, List, [], ◌∷◌,
  if◌then◌else◌,
}
use psutil.Prelude.Int.{ℤ, pos, negsuc, sub_ℕ}
use psutil.Linux.Memory.{usage_percent}
use psutil.Windows.Affinity.{bit}
use psutil.Windows.Errors.{Codes, Call, returned, ◌>>=◌, wrap_exceptions, or_fallback}

-- PROCESS_MEMORY_COUNTERS
pub record MemCounters : Type 0 where
  pub page_fault_count : ℕ
  pub peak_working_set_size : ℕ
  pub working_set_size : ℕ
  pub quota_peak_paged_pool_usage : ℕ
  pub quota_paged_pool_usage : ℕ
  pub quota_peak_non_paged_pool_usage : ℕ
  pub quota_non_paged_pool_usage : ℕ
  pub pagefile_usage : ℕ
  pub peak_pagefile_usage : ℕ
  pub private_usage : ℕ

-- The entries of the dict that the modelled methods read; `counters` are those that
-- `_get_raw_meminfo` takes, with PrivatePageCount as `private_usage`, and `io_counts` those that
-- `io_counters` takes.
pub record Info : Type 0 where
  pub create_time : ℕ
  pub num_threads : ℕ
  pub num_handles : ℕ
  pub ctx_switches : ℕ
  pub user_time : ℕ
  pub kernel_time : ℕ
  pub is_suspended : Bool
  pub hard_faults : ℕ
  pub virtual_size : ℕ
  pub peak_virtual_size : ℕ
  pub counters : MemCounters
  pub io_counts : List ℕ

unfoldable pub raw_meminfo : Codes → Call MemCounters → Call Info → Call MemCounters
unfolding or_fallback
raw_meminfo codes proc_memory_info info =
    or_fallback codes proc_memory_info (do i ← info; returned i.counters)

-- rss, vms, peak_rss, peak_vms; the deprecated aliases are left out.
pub record Pmem : Type 0 where
  pub rss : ℕ
  pub vms : ℕ
  pub peak_rss : ℕ
  pub peak_vms : ℕ

unfoldable pub memory_info : Codes → ℕ → Call MemCounters → Call Info → Call Pmem
unfolding raw_meminfo wrap_exceptions
memory_info codes pid proc_memory_info info = wrap_exceptions codes pid (do
  d ← raw_meminfo codes proc_memory_info info
  returned (record {
    rss = d.working_set_size;
    vms = d.private_usage;
    peak_rss = d.peak_working_set_size;
    peak_vms = d.peak_pagefile_usage;
  }))

-- virtual, peak_virtual, paged_pool, nonpaged_pool, peak_paged_pool, peak_nonpaged_pool
unfoldable pub memory_info_ex : Codes → ℕ → Call MemCounters → Call Info → Call (List ℕ)
unfolding raw_meminfo wrap_exceptions
memory_info_ex codes pid proc_memory_info info = wrap_exceptions codes pid (do
  d ← info
  raw ← raw_meminfo codes proc_memory_info info
  returned (
      d.virtual_size ∷ d.peak_virtual_size ∷ raw.quota_paged_pool_usage
      ∷ raw.quota_non_paged_pool_usage ∷ raw.quota_peak_paged_pool_usage
      ∷ raw.quota_peak_non_paged_pool_usage ∷ []))

-- `GetPerformanceInfo`, in pages
pub record PerformanceInfo : Type 0 where
  pub page_size : ℕ
  pub physical_total : ℕ
  pub physical_available : ℕ
  pub system_cache : ℕ
  pub kernel_nonpaged : ℕ

-- Sizes are bytes, the percentage tenths of a percent.
pub record WinMemory : Type 0 where
  pub total : ℕ
  pub avail : ℕ
  pub percent : ℤ
  pub used : ℤ
  pub free : ℕ
  pub cached : ℕ
  pub wired : ℕ

unfoldable pub virtual_memory : PerformanceInfo → WinMemory
unfolding usage_percent
virtual_memory info =
    let total = info.physical_total * info.page_size in
    let avail = info.physical_available * info.page_size in
    record {
      total = total;
      avail = avail;
      percent = usage_percent (sub_ℕ total avail) total;
      used = sub_ℕ total avail;
      free = avail;
      cached = info.system_cache * info.page_size;
      wired = info.kernel_nonpaged * info.page_size;
    }

-- `secsleft`
pub data SecsLeft : Type 0 where
  seconds : ℤ → SecsLeft
  time_unlimited time_unknown : SecsLeft

pub record Battery : Type 0 where
  pub battery_percent : ℕ
  pub secsleft : SecsLeft
  pub power_plugged : Bool

abbrev pub secs_of : ℤ → SecsLeft
secs_of (negsuc zero) = time_unknown
secs_of n = seconds n

-- Of the answer of the C function: the line status, the flags, the percentage, the seconds left.
unfoldable pub sensors_battery : ℕ → ℕ → ℕ → ℤ → Option Battery
unfolding bit
sensors_battery acline_status flags percent secsleft =
    let plugged = acline_status == 1 in
    if bit flags 7
    then none
    else some (record {
      battery_percent = percent;
      secsleft = if plugged || bit flags 3 then time_unlimited else secs_of secsleft;
      power_plugged = plugged;
    })
