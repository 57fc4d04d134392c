-- ===== src/Tests/Machine.antt =====
-- Memory, disks, frequencies and temperatures of a machine.
use psutil.Prelude.{
  ℕ, ◌≡◌, ◌≤◌, refl, true, false, none, some, List, [], ◌∷◌, ok, err, Error, arith, Option,
}
use psutil.Prelude.Int.{pos, negsuc}
use psutil.Text.{Bytes, b, starts_with, strip, words, to_int, digit}
use psutil.Linux.Footprint.{parse_smaps_rollup, proc_io_counters, split_colon}
use psutil.Linux.Footprint.Rollup.{private_sum, parse_smaps_rollup-uss}
use psutil.Disk.{Statvfs, disk_usage}
use psutil.Disk.Bounds.{IsWithin, disk_usage-IsWithin}
use psutil.System.{Freq, means, cpu_count, cpu_freq, memory_percent, shwtemp}
use psutil.System.Facts.{cpu_freq-means, memory_percent_keeps}

abbrev rollup : List Bytes
rollup =
    b "55a0-7ffd ---p 00000000 00:00 0 [rollup]"
    ∷ b "Pss:                  12 kB"
    ∷ b "Private_Clean:         4 kB"
    ∷ b "Private_Dirty:         8 kB"
    ∷ b "Swap:                  0 kB"
    ∷ []

rollup_run : parse_smaps_rollup rollup ≡ ok (record { uss = 12288; pss = 12288; swap = 0 })
unfolding parse_smaps_rollup starts_with words to_int digit
rollup_run = refl

parse_smaps_rollup-uss_run : 12288 ≡ private_sum rollup
parse_smaps_rollup-uss_run =
    parse_smaps_rollup-uss rollup (record { uss = 12288; pss = 12288; swap = 0 }) rollup_run

io_run :
    proc_io_counters (
      b "rchar: 10"
      ∷ b "wchar: 20"
      ∷ b "syscr: 1"
      ∷ b "syscw: 2"
      ∷ b "read_bytes: 4096"
      ∷ []
      ∷ b "write_bytes: 0"
      ∷ [])
    ≡ ok (1 ∷ 2 ∷ 4096 ∷ 0 ∷ 10 ∷ 20 ∷ [])
unfolding proc_io_counters strip split_colon to_int digit psutil.Prelude.ℕ_discrete
io_run = refl

no_io : proc_io_counters [] ≡ err Error.runtime_error
unfolding proc_io_counters
no_io = refl

abbrev disk : Statvfs
disk = record { f_frsize = 4096; f_blocks = 1000; f_bfree = 300; f_bavail = 250 }

disk_usage-IsWithin_example : IsWithin (disk_usage false (λ u. u) disk)
disk_usage-IsWithin_example = disk_usage-IsWithin (λ u. u) disk (omega arith) (omega arith)

no_cpus : cpu_count true (some (negsuc 0)) none ≡ none
unfolding cpu_count
no_cpus = refl

abbrev slow : Freq
slow = record { current = 1200; min = some 800; max = some 3000 }

abbrev fast : Freq
fast = record { current = 2800; min = some 800; max = some 3200 }

cpu_freq-means_run :
    (current lo hi : ℕ) × (cpu_freq false (slow ∷ fast ∷ []) ≡ means 2 current (some (lo, hi)))
    × (lo ≤ current)
    × (current ≤ hi)
cpu_freq-means_run =
    cpu_freq-means slow fast [] ((omega arith, omega arith), ((omega arith, omega arith), tt))

memory_percent_keeps_run :
    (memory_percent 5 (ok 9000) (memory_percent 2 (ok 8000) none).1).0 ≡ ok (500, 8000)
unfolding memory_percent
memory_percent_keeps_run = memory_percent_keeps 2 5 200 8000 (ok 8000) (ok 9000) none refl

-- 40 degrees are 104 on the other scale, and the one threshold stands for both.
one_temp :
    shwtemp true (b "core 0", (some (pos 40000), (some (pos 80000), none)))
    ≡ (b "core 0", (some (pos 520000), (some (pos 880000), some (pos 880000))))
unfolding shwtemp
one_temp = refl
