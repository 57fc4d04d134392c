-- ===== src/Tests/ProcFiles.antt =====
-- Stat files of processes and threads with awkward names.
use psutil.Prelude.{
  ℕ, ◌≡◌, ◌≢◌, ◌⊎◌, refl, true, false, Option, none, some, List, [], ◌∷◌, ◌++◌, ok, err, Error,
  Result, ◌↔◌, arith, ℕ_discrete, elem, ◌==◌, if◌then◌else◌, ◌>>=◌, replicate,
}
use psutil.Prelude.Dict.{Dict, lookup}
use psutil.Text.{Bytes, b, same, rfind, to_int, strip, contains, is_space, digit}
use psutil.Text.Split.{test-AllWords, all_words, uncut, join}
use psutil.Linux.Files.{
  OsError, Read, content, failed, raised, raw, Outcome, is_zombie, wrap_exceptions,
}
use psutil.Linux.Files.Wrapped.{wrap_exceptions_raw}
use psutil.Process.Children.{descendants}
use psutil.Linux.Tree.{Below, descendants-ppid_map}
use psutil.Linux.Stat.{
  Stat, parse_stat_file, ppid_map, note_parent, thread_times, linux_create_time, field, since_epoch,
}
use psutil.Linux.Stat.Lines.{
  stat_line, IsLine, IsParsed, parse_stat_file-stat_line, is_zombie-stat_line,
}
use psutil.Linux.Stat.Parents.{there, gone, AllRead, ppid_map-lookup}
use psutil.Linux.Stat.Times.{thread_line, thread_times_shifted, linux_create_time_stable}

abbrev pid : Bytes
pid = b "42"

abbrev name : Bytes
name = b "a) b"

-- The fields from the parent_of's PID on: the parent_of is 1, and all others 7.
abbrev rest : List Bytes
rest = b "1" ∷ replicate 38 (b "7")

state_IsLine : IsLine pid (b "S") rest
unfolding contains join all_words uncut is_space
state_IsLine = record { opened = refl; closed = refl; fields = test-AllWords (b "S" ∷ rest) refl }

parse_stat_file-stat_line_example :
    (r : Stat) × (parse_stat_file (stat_line pid name (b "S") rest) ≡ ok r)
    × IsParsed name (b "S" ∷ rest) r
parse_stat_file-stat_line_example =
    parse_stat_file-stat_line pid name (b "S") rest state_IsLine (omega arith)

is_zombie-stat_line_run :
    is_zombie (content (stat_line pid name (b "S") rest)) ≡ same (b "S") (b "Z")
is_zombie-stat_line_run = is_zombie-stat_line pid name b'S' rest state_IsLine

abbrev stat : ℕ → Read Bytes
stat n = if n == 42 then content (stat_line pid name (b "S") rest) else failed OsError.not_found

abbrev parent_of : ℕ → Option ℕ
parent_of n = if n == 42 then some 1 else none

both_read : AllRead stat parent_of (42 ∷ 43 ∷ [])
unfolding to_int digit
both_read = (
  there pid name (b "S") (b "1") (replicate 38 (b "7")) 1 state_IsLine refl refl refl,
  (gone refl refl, tt),
)

ppid_map-lookup_run :
    (d : Dict ℕ ℕ) × (ppid_map stat (42 ∷ 43 ∷ []) [] ≡ ok d)
    × ((j : ℕ) → lookup ℕ_discrete j d ≡ (if elem j (42 ∷ 43 ∷ []) then parent_of j else none))
ppid_map-lookup_run = ppid_map-lookup stat parent_of (42 ∷ 43 ∷ []) both_read

abbrev thread_fields : List Bytes
thread_fields = replicate 9 (b "0") ++ (b "5" ∷ b "700" ∷ b "30" ∷ [])

abbrev thread_file : Bytes
thread_file = thread_line pid name (b "S") thread_fields ++ (b'\n' ∷ [])

-- User time 700 and system time 30 come out as 5 and 700.
shifted : thread_times thread_file ≡ ok (5, 700)
unfolding thread_times thread_line strip to_int digit join
shifted = refl

thread_times_shifted_example : thread_times thread_file ≡ (
    field (b "S" ∷ thread_fields) 10 >>= (λ u. to_int 10 u >>= (λ utime.
      field (b "S" ∷ thread_fields) 11 >>= (λ s. to_int 10 s >>= (λ stime. ok (utime, stime))))))
unfolding strip thread_line join contains is_space
thread_times_shifted_example =
    thread_times_shifted thread_file pid (b "a") (b "b") (b "S") thread_fields refl refl refl
      (ground arith)

abbrev missing : Outcome ℕ
missing = raised (raw OsError.not_found)

wrap_exceptions_raw_run :
    (missing ≡ raised (raw OsError.not_found))
    × (OsError.not_found ≢ OsError.permission)
    × (OsError.not_found ≢ OsError.lookup)
    × ((OsError.not_found ≢ OsError.not_found)
        ⊎ ((is_zombie (content (stat_line pid name (b "S") rest)) ≡ false) × (true ≡ true)))
unfolding wrap_exceptions is_zombie stat_line join same rfind
wrap_exceptions_raw_run =
    wrap_exceptions_raw 42 (content (stat_line pid name (b "S") rest)) true missing
      OsError.not_found refl

linux_create_time_stable_run :
    linux_create_time false
      (err Error.index_error)
      (ok 9)
      (linux_create_time true (err Error.index_error) (ok 5) (some 700)).1
    ≡ (since_epoch false 700 (ok 9), some 700)
unfolding linux_create_time
linux_create_time_stable_run =
    linux_create_time_stable (err Error.index_error) (err Error.index_error) (ok 5) (ok 9)
      (some 700) false 700 refl

abbrev look : ℕ → Result ℕ
look n = ok 5

-- The process 42 is the one descendant of process 1.
descendants-ppid_map_example :
    (elem 42 (42 ∷ []) ≡ true) ↔ Below stat parent_of (42 ∷ 43 ∷ []) look 5 1 42
unfolding ppid_map note_parent to_int digit descendants ℕ_discrete stat_line
    psutil.Prelude.Dict.insert
descendants-ppid_map_example =
    descendants-ppid_map stat parent_of (42 ∷ 43 ∷ []) look 5 1 42 (42 ∷ []) ((42, 1) ∷ [])
      both_read refl refl
