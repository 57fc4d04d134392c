-- ===== src/Linux/Counters.antt =====
-- psutil/_pslinux.py: `disk_io_counters` and `net_io_counters`, which parse the tables that the
-- functions of the same names in psutil/__init__.py adjust and sum up.
pub mod Lines
use psutil.Prelude.{
  ℕ, zero, suc, ◌+◌, ◌-◌, ◌*◌, Bool, true, false, ◌||◌, not, Option, none, some, List, [], ◌∷◌, map,
  Result, ok, err, Error, ◌>>=◌, ◌==◌, leb, if◌then◌else◌, length, take, drop,
}
use psutil.Prelude.Dict.{Dict, insert}
use psutil.Text.{Bytes, rfind, words, strip, to_int}
use psutil.Environ.{same_bytes}
use psutil.Linux.Files.{Read, content, failed}

-- `map(int, fields)`
unfoldable pub to_ints : List Bytes → Result (List ℕ)
unfolding to_int
to_ints [] = ok []
to_ints (w ∷ ws) = do n ← to_int 10 w; ns ← to_ints ws; ok (n ∷ ns)

-- name, reads, writes, rbytes, wbytes, rtime, wtime, reads_merged, writes_merged, busy_time
abbrev pub Entry : Type 0
Entry = Bytes × List ℕ

-- The order of the numbers in /proc/diskstats from the reads on, put in that of the entry.
abbrev pub disk_entry : Bytes → List ℕ → Result Entry
disk_entry name
      (reads ∷ reads_merged ∷ rbytes ∷ rtime ∷ writes ∷ writes_merged ∷ wbytes ∷ wtime ∷ now
        ∷ busy_time ∷ weighted ∷ []) =
    ok (
      name,
      reads ∷ writes ∷ rbytes ∷ wbytes ∷ rtime ∷ wtime ∷ reads_merged ∷ writes_merged ∷ busy_time
          ∷ [],
    )
disk_entry name _ = err Error.value_error

abbrev pub partition_entry : Bytes → List ℕ → Result Entry
partition_entry name (reads ∷ rbytes ∷ writes ∷ wbytes ∷ []) =
    ok (name, reads ∷ writes ∷ rbytes ∷ wbytes ∷ 0 ∷ 0 ∷ 0 ∷ 0 ∷ 0 ∷ [])
partition_entry name _ = err Error.value_error

abbrev pub nth : List Bytes → ℕ → Bytes
nth [] n = []
nth (w ∷ ws) zero = w
nth (w ∷ ws) (suc n) = nth ws n

-- One line of /proc/diskstats, by the number of its fields: Linux 2.4, a disk, a partition.
unfoldable pub procfs_entry : List Bytes → Result Entry
unfolding to_ints
procfs_entry fields =
    let n = length fields in
    if n == 15
    then (do
      reads ← to_int 10 (nth fields 2)
      ns ← to_ints (take 10 (drop 4 fields))
      disk_entry (nth fields 3) (reads ∷ ns))
    else if (n == 14) || leb 18 n
    then (do ns ← to_ints (take 11 (drop 3 fields)); disk_entry (nth fields 2) ns)
    else if n == 7
    then (do ns ← to_ints (drop 3 fields); partition_entry (nth fields 2) ns)
    else err Error.value_error

-- A `stat` file below /sys/block.
abbrev pub sysfs_numbers : Bytes → List ℕ → Result Entry
sysfs_numbers name
      (reads ∷ reads_merged ∷ rbytes ∷ rtime ∷ writes ∷ writes_merged ∷ wbytes ∷ wtime ∷ now
        ∷ busy_time ∷ []) =
    ok (
      name,
      reads ∷ writes ∷ rbytes ∷ wbytes ∷ rtime ∷ wtime ∷ reads_merged ∷ writes_merged ∷ busy_time
          ∷ [],
    )
sysfs_numbers name _ = err Error.value_error

unfoldable pub sysfs_entry : Bytes × Bytes → Result Entry
unfolding strip words to_ints
sysfs_entry (name, stat) = do ns ← to_ints (take 10 (words (strip stat))); sysfs_numbers name ns

-- `DISK_SECTOR_SIZE`
abbrev pub sector_size : ℕ
sector_size = 512

abbrev pub Devices : Type 0
Devices = Dict Bytes (List ℕ)

abbrev pub in_bytes : List ℕ → List ℕ
in_bytes (reads ∷ writes ∷ rbytes ∷ wbytes ∷ rest) =
    reads ∷ writes ∷ (rbytes * sector_size) ∷ (wbytes * sector_size) ∷ rest
in_bytes ns = ns

-- One round of the loop over the entries; `is_storage_device name` asks /sys/block.
unfoldable pub add_entry : Bool → (Bytes → Bool) → Entry → Devices → Devices
unfolding same_bytes
add_entry perdisk is_storage_device (name, ns) retdict =
    if perdisk || is_storage_device name
    then insert same_bytes name (in_bytes ns) retdict
    else retdict

module _ {L : Type 0} (entry : L → Result Entry) (perdisk : Bool)
    (is_storage_device : Bytes → Bool) where
  unfoldable pub add_entries : List L → Devices → Result Devices
  unfolding add_entry
  add_entries [] retdict = ok retdict
  add_entries (line ∷ lines) retdict = do
    e ← entry line
    add_entries lines (add_entry perdisk is_storage_device e retdict)

-- Where the counters stand: /proc/diskstats, the `stat` files below /sys/block, or neither.
pub data DiskStats : Type 0 where
  procfs : List Bytes → DiskStats
  sysfs : List (Bytes × Bytes) → DiskStats
  nowhere : DiskStats

unfoldable pub procfs_line : Bytes → Result Entry
unfolding words procfs_entry
procfs_line line = procfs_entry (words line)

-- `disk_io_counters(perdisk)`
unfoldable pub disk_io_counters : Bool → (Bytes → Bool) → DiskStats → Result Devices
unfolding procfs_line sysfs_entry add_entries
disk_io_counters perdisk is_storage_device (procfs lines) =
    add_entries procfs_line perdisk is_storage_device lines []
disk_io_counters perdisk is_storage_device (sysfs files) =
    add_entries sysfs_entry perdisk is_storage_device files []
disk_io_counters perdisk is_storage_device nowhere = err Error.not_implemented

-- The sixteen numbers of a line of /proc/net/dev: received, then sent.
abbrev pub net_entry : List ℕ → Result (List ℕ)
net_entry
      (bytes_recv ∷ packets_recv ∷ errin ∷ dropin ∷ fifoin ∷ framein ∷ compressedin ∷ multicastin
        ∷ bytes_sent ∷ packets_sent ∷ errout ∷ dropout ∷ fifoout ∷ collisionsout ∷ carrierout
        ∷ compressedout ∷ []) =
    ok (
      bytes_sent ∷ bytes_recv ∷ packets_sent ∷ packets_recv ∷ errin ∷ errout ∷ dropin ∷ dropout
      ∷ [])
net_entry _ = err Error.value_error

-- `colon = line.rfind(':')`, which has to be behind the start of the line.
abbrev pub net_line : Option ℕ → Bytes → Devices → Result Devices
net_line none line retdict = err Error.assertion_error
net_line (some zero) line retdict = err Error.assertion_error
net_line (some (suc n)) line retdict = do
  ns ← to_ints (words (strip (drop (suc n + 1) line)))
  fields ← net_entry ns
  ok (insert same_bytes (strip (take (suc n) line)) fields retdict)

-- `net_io_counters`, of the lines behind the two of the heading.
unfoldable pub net_io_counters : List Bytes → Devices → Result Devices
unfolding rfind strip words to_ints same_bytes
net_io_counters [] retdict = ok retdict
net_io_counters (line ∷ lines) retdict = do
  retdict' ← net_line (rfind b':' line) line retdict
  net_io_counters lines retdict'
