-- ===== src/Linux/OpenFiles.antt =====
-- psutil/_pslinux.py: `file_flags_to_mode`, `Process.open_files`, `_raise_if_not_alive` and the end of
-- `Process.threads`;
-- psutil/_common.py: `isfile_strict`.
pub mod Modes
use psutil.Prelude.{
  ℕ, zero, suc, ◌/◌, ◌%◌, Bool, true, false, Option, none, some, List, [], ◌∷◌, Result, ok, err,
  Error, ◌>>=◌, ◌==◌, if◌then◌else◌,
}
use psutil.Text.{Bytes, b, starts_with, words, to_int}
use psutil.Linux.Files.{OsError, Read, content, failed, Outcome, value, raised, known, raw}
use psutil.Linux.Stat.{field, Thread, threads}

-- `s.replace(c, d, 1)`, for single bytes
unfoldable pub replace_first : ℕ → ℕ → Bytes → Bytes
replace_first c d [] = []
replace_first c d (e ∷ s) = let rest = replace_first c d s in if e == c then d ∷ s else e ∷ rest

-- `mode.replace('w+', 'r+')`
unfoldable pub replace_w_plus : Bytes → Bytes
replace_w_plus [] = []
replace_w_plus (c ∷ s) =
    let rest = replace_w_plus s in if starts_with (c ∷ s) (b "w+") then b'r' ∷ rest else c ∷ rest

-- `modes_map[…]`, by the two lowest bits
abbrev pub access_mode : ℕ → Result Bytes
access_mode zero = ok (b "r")
access_mode (suc zero) = ok (b "w")
access_mode (suc (suc zero)) = ok (b "w+")
access_mode _ = err Error.key_error

-- `flags & os.O_APPEND`
abbrev pub is_append : ℕ → Bool
is_append flags = flags / 1024 % 2 == 1

unfoldable pub file_flags_to_mode : ℕ → Result Bytes
unfolding replace_first replace_w_plus
file_flags_to_mode flags = do
  mode ← access_mode (flags % 4)
  ok (replace_w_plus (if is_append flags then replace_first b'w' b'a' mode else mode))

-- `isfile_strict`, of what `os.stat` comes to: whether it is a regular file.
unfoldable pub isfile_strict : Read Bool → Outcome Bool
isfile_strict (content regular) = value regular
isfile_strict (failed OsError.permission) = raised (raw OsError.permission)
isfile_strict (failed e) = value false

pub record OpenFile : Type 0 where
  pub path : Bytes
  pub fd : ℕ
  pub position : ℕ
  pub mode : Bytes
  pub flags : ℕ

-- A descriptor: its link, the stat of what the link names, and the first two lines of its fdinfo file.
pub record Fd : Type 0 where
  pub fd : ℕ
  pub link : Read Bytes
  pub stat : Read Bool
  pub info : Read (Bytes × Bytes)

abbrev pub second_word : Bytes → Result Bytes
second_word line = field (words line) 1

abbrev pub opened : Bytes → ℕ → Bytes × Bytes → Result OpenFile
opened path fd (first, second) = do
  p ← second_word first
  position ← to_int 10 p
  f ← second_word second
  flags ← to_int 8 f
  mode ← file_flags_to_mode flags
  ok (record { path = path; fd = fd; position = position; mode = mode; flags = flags })

abbrev pub or_raised : Result OpenFile → Outcome (Option OpenFile × Bool)
or_raised (ok f) = value (some f, false)
or_raised (err e) = raised (known e)

-- The Boolean is whether the descriptor was found to be gone.
abbrev pub by_info : Bytes → ℕ → Read (Bytes × Bytes) → Outcome (Option OpenFile × Bool)
by_info path fd (content lines) = or_raised (opened path fd lines)
by_info path fd (failed OsError.not_found) = value (none, true)
by_info path fd (failed OsError.lookup) = value (none, true)
by_info path fd (failed e) = raised (raw e)

abbrev pub by_stat : Bytes → Fd → Outcome Bool → Outcome (Option OpenFile × Bool)
by_stat path d (value true) = by_info path d.fd d.info
by_stat path d (value false) = value (none, false)
by_stat path d (raised e) = raised e

abbrev pub by_link : Fd → Read Bytes → Outcome (Option OpenFile × Bool)
by_link d (content path) =
    if starts_with path (b "/") then by_stat path d (isfile_strict d.stat) else value (none, false)
by_link d (failed OsError.not_found) = value (none, true)
by_link d (failed OsError.lookup) = value (none, true)
by_link d (failed OsError.invalid) = value (none, false)
by_link d (failed OsError.name_too_long) = value (none, false)
by_link d (failed e) = raised (raw e)

abbrev pub put_first : Option OpenFile → List OpenFile → List OpenFile
put_first none l = l
put_first (some f) l = f ∷ l

abbrev either : Bool → Bool → Bool
either true hit = true
either false hit = hit

abbrev pub with_rest :
    Outcome (Option OpenFile × Bool)
    → Outcome (List OpenFile × Bool)
    → Outcome (List OpenFile × Bool)
with_rest (value (f, gone)) (value (l, hit)) = value (put_first f l, either gone hit)
with_rest (value (f, gone)) (raised e) = raised e
with_rest (raised e) rest = raised e

-- The loop over the descriptors, with `hit_enoent`.
unfoldable pub look_at_all : List Fd → Outcome (List OpenFile × Bool)
unfolding isfile_strict file_flags_to_mode
look_at_all [] = value ([], false)
look_at_all (d ∷ ds) = with_rest (by_link d d.link) (look_at_all ds)

-- `_raise_if_not_alive`, before a return of `a`: `alive` is what `os.stat` of the process's directory
-- comes to.
abbrev pub if_alive : {A : Type 0} → Read (Unit {0}) → A → Outcome A
if_alive (content u) a = value a
if_alive (failed e) a = raised (raw e)

abbrev pub alive_if_hit : {A : Type 0} → Read (Unit {0}) → Outcome (A × Bool) → Outcome A
alive_if_hit alive (value (a, true)) = if_alive alive a
alive_if_hit alive (value (a, false)) = value a
alive_if_hit alive (raised e) = raised e

-- `open_files`
unfoldable pub open_files : Read (Unit {0}) → List Fd → Outcome (List OpenFile)
unfolding look_at_all
open_files alive ds = alive_if_hit alive (look_at_all ds)

abbrev pub as_outcome : {A : Type 0} → Result A → Outcome A
as_outcome (ok a) = value a
as_outcome (err e) = raised (known e)

-- `threads`, with the check that the process is still there if one of its threads vanished.
unfoldable pub process_threads : Read (Unit {0}) → (ℕ → Read Bytes) → List ℕ → Outcome (List Thread)
unfolding threads
process_threads alive stat tids = alive_if_hit alive (as_outcome (threads stat tids))
