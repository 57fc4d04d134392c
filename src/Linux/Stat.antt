-- ===== src/Linux/Stat.antt =====
-- psutil/_pslinux.py: `_parse_stat_file` and what reads it, and `ppid_map`.
pub mod Lines
pub mod Times
pub mod Parents
use psutil.Prelude.{
  ℕ, suc, ◌+◌, Bool, true, false, Option, none, some, List, [], ◌∷◌, Result, ok, err, Error, ◌>>=◌,
  if◌then◌else◌, drop, take, length, get_elem?, ℕ_discrete, ◌==◌,
}
use psutil.Prelude.Dict.{Dict, insert}
use psutil.Text.{
  Bytes, b, find, rfind, slice_from, slice_to, words, split, to_int, starts_with, strip,
}
use psutil.Linux.Files.{OsError, Read, content, failed}

-- The dict that `_parse_stat_file` returns; `blkio_ticks` is `none` for the number 0 that the source
-- puts where the field is missing.
pub record Stat : Type 0 where
  pub name : Bytes
  pub status : Bytes
  pub ppid : Bytes
  pub ttynr : Bytes
  pub minflt : Bytes
  pub majflt : Bytes
  pub utime : Bytes
  pub stime : Bytes
  pub children_utime : Bytes
  pub children_stime : Bytes
  pub create_time : Bytes
  pub cpu_num : Bytes
  pub blkio_ticks : Option Bytes

-- `fields[i]`
abbrev pub at_or_raise : Option Bytes → Result Bytes
at_or_raise none = err Error.index_error
at_or_raise (some w) = ok w

abbrev pub field : List Bytes → ℕ → Result Bytes
field fields i = at_or_raise (get_elem? fields i)

-- The dict, of the name and the fields.
unfoldable pub pick : Bytes → List Bytes → Result Stat
pick name fields = do
  status ← field fields 0
  ppid ← field fields 1
  ttynr ← field fields 4
  minflt ← field fields 7
  majflt ← field fields 9
  utime ← field fields 11
  stime ← field fields 12
  children_utime ← field fields 13
  children_stime ← field fields 14
  create_time ← field fields 19
  cpu_num ← field fields 36
  ok (record {
    name = name;
    status = status;
    ppid = ppid;
    ttynr = ttynr;
    minflt = minflt;
    majflt = majflt;
    utime = utime;
    stime = stime;
    children_utime = children_utime;
    children_stime = children_stime;
    create_time = create_time;
    cpu_num = cpu_num;
    blkio_ticks = get_elem? fields 39;
  })

-- `data[data.find(b'(') + 1 : rpar]`
unfoldable pub comm : Bytes → Bytes
unfolding find rfind
comm stat = slice_from (find b'(' stat) 1 (slice_to (rfind b')' stat) stat)

-- `data[rpar + 2:].split()`
unfoldable pub fields_of : Bytes → List Bytes
unfolding rfind words
fields_of stat = words (slice_from (rfind b')' stat) 2 stat)

-- `_parse_stat_file`, of the file's bytes
unfoldable pub parse_stat_file : Bytes → Result Stat
unfolding pick comm fields_of
parse_stat_file stat = pick (comm stat) (fields_of stat)

-- One round of `ppid_map`.
abbrev pub stored : ℕ → Dict ℕ ℕ → Result ℕ → Result (Dict ℕ ℕ)
stored pid ret (ok ppid) = ok (insert ℕ_discrete pid ppid ret)
stored pid ret (err e) = err e

abbrev pub read_ppid : List Bytes → Result ℕ
read_ppid dset = do w ← field dset 1; to_int 10 w

unfoldable pub note_parent : ℕ → Read Bytes → Dict ℕ ℕ → Result (Dict ℕ ℕ)
unfolding fields_of to_int
note_parent pid (content stat) ret = stored pid ret (read_ppid (fields_of stat))
note_parent pid (failed OsError.not_found) ret = ok ret
note_parent pid (failed OsError.lookup) ret = ok ret
note_parent pid (failed OsError.permission) ret = err (Error.access_denied pid)
note_parent pid (failed OsError.invalid) ret = err Error.os_error
note_parent pid (failed OsError.name_too_long) ret = err Error.os_error
note_parent pid (failed OsError.other) ret = err Error.os_error

-- `ppid_map`, from the dict that is made already; `stat pid` is what reading /proc/pid/stat comes to.
unfoldable pub ppid_map : (ℕ → Read Bytes) → List ℕ → Dict ℕ ℕ → Result (Dict ℕ ℕ)
unfolding note_parent
ppid_map stat [] ret = ok ret
ppid_map stat (pid ∷ pids) ret = do ret' ← note_parent pid (stat pid) ret; ppid_map stat pids ret'

-- `cpu_times`, in ticks: user, system, children_user, children_system, iowait.
abbrev pub ticks_or_zero : Option Bytes → Result ℕ
ticks_or_zero none = ok 0
ticks_or_zero (some w) = to_int 10 w

unfoldable pub cpu_times_of : Stat → Result (List ℕ)
unfolding to_int
cpu_times_of values = do
  utime ← to_int 10 values.utime
  stime ← to_int 10 values.stime
  children_utime ← to_int 10 values.children_utime
  children_stime ← to_int 10 values.children_stime
  iowait ← ticks_or_zero values.blkio_ticks
  ok (utime ∷ stime ∷ children_utime ∷ children_stime ∷ iowait ∷ [])

-- `boot_time`, of the lines of /proc/stat; `RuntimeError` if there is no such line.
unfoldable pub boot_time : List Bytes → Result ℕ
unfolding starts_with words strip to_int
boot_time [] = err Error.runtime_error
boot_time (line ∷ lines) =
    if starts_with line (b "btime")
    then (do w ← field (words (strip line)) 1; to_int 10 w)
    else boot_time lines

abbrev pub since_epoch : Bool → ℕ → Result ℕ → Result ℕ
since_epoch true ctime boot = ok ctime
since_epoch false ctime (ok t) = ok (ctime + t)
since_epoch false ctime (err e) = err e

abbrev pub with_ctime : Bool → Result ℕ → Result ℕ → Option ℕ → Result ℕ × Option ℕ
with_ctime monotonic boot (ok ctime) cached = (since_epoch monotonic ctime boot, some ctime)
with_ctime monotonic boot (err e) cached = (err e, cached)

-- `create_time(monotonic)`, with `_ctime`. `parsed` is what `_parse_stat_file` answers and `boot` what
-- `boot_time` does, in ticks.
unfoldable pub linux_create_time : Bool → Result Stat → Result ℕ → Option ℕ → Result ℕ × Option ℕ
unfolding to_int
linux_create_time monotonic parsed boot (some ctime) =
    (since_epoch monotonic ctime boot, some ctime)
linux_create_time monotonic parsed boot none =
    with_ctime monotonic boot (parsed >>= (λ values. to_int 10 values.create_time)) none

-- `threads`: user and system time of one thread, in ticks, of its stat file stripped. Unlike
-- `_parse_stat_file` this looks for the first closing parenthesis.
unfoldable pub thread_values : Bytes → List Bytes
unfolding find split
thread_values st = split b' ' (slice_from (find b')' st) 2 st)

unfoldable pub thread_times : Bytes → Result (ℕ × ℕ)
unfolding thread_values strip to_int
thread_times stat =
    let values = thread_values (strip stat) in
    do
      u ← field values 11
      utime ← to_int 10 u
      s ← field values 12
      stime ← to_int 10 s
      ok (utime, stime)

-- The loop of `threads` over the thread IDs; the Boolean is `hit_enoent`.
abbrev pub Thread : Type 0
Thread = ℕ × ℕ × ℕ

abbrev pub add_thread :
    ℕ → Result (ℕ × ℕ) → Result (List Thread × Bool) → Result (List Thread × Bool)
add_thread tid (err e) rest = err e
add_thread tid (ok (u, s)) (err e) = err e
add_thread tid (ok (u, s)) (ok (l, hit)) = ok ((tid, u, s) ∷ l, hit)

abbrev pub vanished : Result (List Thread × Bool) → Result (List Thread × Bool)
vanished (ok (l, hit)) = ok (l, true)
vanished (err e) = err e

abbrev pub one_thread : ℕ → Read Bytes → Result (List Thread × Bool) → Result (List Thread × Bool)
one_thread tid (content stat) rest = add_thread tid (thread_times stat) rest
one_thread tid (failed OsError.not_found) rest = vanished rest
one_thread tid (failed OsError.lookup) rest = vanished rest
one_thread tid (failed e) rest = err Error.os_error

unfoldable pub threads : (ℕ → Read Bytes) → List ℕ → Result (List Thread × Bool)
unfolding thread_times
threads stat [] = ok ([], false)
threads stat (tid ∷ tids) = one_thread tid (stat tid) (threads stat tids)
