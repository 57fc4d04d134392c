-- ===== src/Linux/Footprint.antt =====
-- psutil/_pslinux.py: `Process.io_counters`, `_parse_smaps_rollup` and `memory_footprint`, of the lines
-- of the files.
pub mod Rollup
use psutil.Prelude.{
  ℕ, zero, suc, ◌+◌, ◌*◌, Bool, true, false, ◌&&◌, ◌==◌, Option, none, some, List, [], ◌∷◌, Result,
  ok, err, Error, ◌>>=◌, if◌then◌else◌,
}
use psutil.Prelude.Dict.{Dict, lookup, insert}
use psutil.Text.{Bytes, b, push_head, starts_with, strip, words, to_int}
use psutil.Environ.{same_bytes}
use psutil.Linux.Files.{OsError, Raised, known, raw, Outcome, value, raised}
use psutil.Linux.Stat.{field}

-- `line.split(b': ')`
unfoldable pub split_colon : Bytes → List Bytes
unfolding push_head
split_colon [] = [] ∷ []
split_colon (c ∷ []) = (c ∷ []) ∷ []
split_colon (c ∷ d ∷ s) = elim ((c == b':') && (d == b' ')) [
  | true ↦ [] ∷ split_colon s
  | false ↦ push_head c (split_colon (d ∷ s))
]

abbrev pub IoFields : Type 0
IoFields = Dict Bytes ℕ

-- A line of two pieces is a field; any other is passed over.
abbrev pub note_pieces : List Bytes → IoFields → Result IoFields
note_pieces (name ∷ text ∷ []) fields = do n ← to_int 10 text; ok (insert same_bytes name n fields)
note_pieces _ fields = ok fields

abbrev pub note_stripped : Bytes → IoFields → Result IoFields
note_stripped [] fields = ok fields
note_stripped (c ∷ line) fields = note_pieces (split_colon (c ∷ line)) fields

unfoldable pub io_fields : List Bytes → IoFields → Result IoFields
unfolding strip split_colon to_int insert
io_fields [] fields = ok fields
io_fields (line ∷ lines) fields = do
  fields' ← note_stripped (strip line) fields
  io_fields lines fields'

-- `fields[name]`, where a missing field is a `ValueError`.
unfoldable pub io_field : Bytes → IoFields → Result ℕ
unfolding lookup same_bytes
io_field name fields = elim (lookup same_bytes name fields) [
  | none ↦ err Error.value_error
  | some n ↦ ok n
]

-- read syscalls, write syscalls, read bytes, write bytes, read chars, write chars
abbrev pub pio : IoFields → Result (List ℕ)
pio [] = err Error.runtime_error
pio (f ∷ fields) = do
  syscr ← io_field (b "syscr") (f ∷ fields)
  syscw ← io_field (b "syscw") (f ∷ fields)
  read_bytes ← io_field (b "read_bytes") (f ∷ fields)
  write_bytes ← io_field (b "write_bytes") (f ∷ fields)
  rchar ← io_field (b "rchar") (f ∷ fields)
  wchar ← io_field (b "wchar") (f ∷ fields)
  ok (syscr ∷ syscw ∷ read_bytes ∷ write_bytes ∷ rchar ∷ wchar ∷ [])

unfoldable pub proc_io_counters : List Bytes → Result (List ℕ)
unfolding io_fields io_field
proc_io_counters lines = do fields ← io_fields lines []; pio fields

-- uss, pss, swap
pub record Footprint : Type 0 where
  pub uss : ℕ
  pub pss : ℕ
  pub swap : ℕ

-- `int(line.split()[1]) * 1024`
unfoldable pub kilobytes : Bytes → Result ℕ
unfolding words to_int
kilobytes line = do w ← field (words line) 1; n ← to_int 10 w; ok (n * 1024)

unfoldable pub note_rollup : Bytes → Footprint → Result Footprint
unfolding starts_with kilobytes
note_rollup line f =
    if starts_with line (b "Private_")
    then (do n ← kilobytes line; ok (record f { uss = f.uss + n }))
    else if starts_with line (b "Pss:")
    then (do n ← kilobytes line; ok (record f { pss = n }))
    else if starts_with line (b "Swap:")
    then (do n ← kilobytes line; ok (record f { swap = n }))
    else ok f

unfoldable pub read_rollup : List Bytes → Footprint → Result Footprint
unfolding note_rollup
read_rollup [] f = ok f
read_rollup (line ∷ lines) f = do f' ← note_rollup line f; read_rollup lines f'

unfoldable pub parse_smaps_rollup : List Bytes → Result Footprint
unfolding read_rollup
parse_smaps_rollup lines = read_rollup lines (record { uss = 0; pss = 0; swap = 0 })

-- `fetch`: `rollup` is what `_parse_smaps_rollup` comes to where the system has it, `smaps` what
-- `_parse_smaps` comes to.
unfoldable pub memory_footprint : Option (Outcome Footprint) → Outcome Footprint → Outcome Footprint
memory_footprint none smaps = smaps
memory_footprint (some (value f)) smaps = value f
memory_footprint (some (raised (raw OsError.lookup))) smaps = smaps
memory_footprint (some (raised (raw OsError.not_found))) smaps = smaps
memory_footprint (some (raised e)) smaps = raised e
