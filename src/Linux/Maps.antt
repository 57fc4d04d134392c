-- ===== src/Linux/Maps.antt =====
-- psutil/_pslinux.py: `Process.memory_maps`; psutil/_common.py: `path_exists_strict`.
pub mod Blocks
use psutil.Prelude.{
  ℕ, zero, suc, ◌-◌, ◌*◌, Bool, true, false, ◌&&◌, not, Option, none, some, List, [], ◌∷◌, ◌++◌,
  Result, ok, err, Error, if◌then◌else◌, take, drop, length, map,
}
use psutil.Prelude.Dict.{Dict, lookup, insert}
use psutil.Text.{Bytes, b, is_space, lstrip, strip, starts_with, ends_with, same, split, to_int}
use psutil.Environ.{same_bytes}
use psutil.Linux.Files.{
  OsError, Read, content, failed, Raised, known, raw, Outcome, value, raised, is_zombie,
}
use psutil.Linux.Files.Bind.{◌>>=◌, from_result}

abbrev pub cons_word : ℕ → Bytes × Bytes → Bytes × Bytes
cons_word c (w, rest) = (c ∷ w, rest)

-- A text up to its first blank, and the rest from there.
unfoldable pub break_word : Bytes → Bytes × Bytes
unfolding is_space
break_word [] = ([], [])
break_word (c ∷ s) =
    let more = cons_word c (break_word s) in if is_space c then ([], c ∷ s) else more

abbrev pub last_piece : Bytes → List Bytes
last_piece [] = []
last_piece (c ∷ s) = (c ∷ s) ∷ []

abbrev pub put_piece : (Bytes → List Bytes) → Bytes × Bytes → List Bytes
put_piece go ([], rest) = []
put_piece go (c ∷ w, rest) = (c ∷ w) ∷ go rest

-- `s.split(None, n)`
unfoldable pub split_max : ℕ → Bytes → List Bytes
unfolding break_word lstrip
split_max zero s = last_piece (lstrip s)
split_max (suc n) s = put_piece (split_max n) (break_word (lstrip s))

abbrev pub Fields : Type 0
Fields = Dict Bytes ℕ

-- What a line of a block does: it begins a new block, it is a field, or it holds no number.
pub data Line : Type 0 where
  header : Line
  amount : Bytes → ℕ → Line
  skipped : Line
  bad : Error → Line

abbrev pub number_or : Bytes → Result ℕ → Line
number_or key (ok n) = amount key (n * 1024)
number_or key (err Error.value_error) =
    if starts_with key (b "VmFlags:") then skipped else bad Error.value_error
number_or key (err e) = bad e

abbrev pub read_number : Bytes → List Bytes → Line
read_number key [] = if starts_with key (b "VmFlags:") then skipped else bad Error.value_error
read_number key (w ∷ ws) = number_or key (to_int 10 w)

abbrev pub read_fields : List Bytes → Line
read_fields [] = bad Error.index_error
read_fields (key ∷ ws) = if ends_with b':' key then read_number key ws else header

unfoldable pub read_line : Bytes → Line
unfolding split_max ends_with starts_with to_int
read_line line = read_fields (split_max 5 line)

-- addr, perms, path, and the ten amounts in the order of `pmmap_ext`
pub record Region : Type 0 where
  pub addr : Bytes
  pub perms : Bytes
  pub path : Bytes
  pub amounts : List ℕ

abbrev or_zero : Option ℕ → ℕ
or_zero none = 0
or_zero (some n) = n

abbrev pub field_names : List Bytes
field_names =
    b "Rss:"
    ∷ b "Size:"
    ∷ b "Pss:"
    ∷ b "Shared_Clean:"
    ∷ b "Shared_Dirty:"
    ∷ b "Private_Clean:"
    ∷ b "Private_Dirty:"
    ∷ b "Referenced:"
    ∷ b "Anonymous:"
    ∷ b "Swap:"
    ∷ []

unfoldable pub amount_of : Bytes → Fields → ℕ
unfolding lookup same_bytes
amount_of key fields = or_zero (lookup same_bytes key fields)

unfoldable pub amounts_of : Fields → List ℕ
unfolding amount_of
amounts_of fields = map (λ key. amount_of key fields) field_names

-- `path_exists_strict`, of what `os.stat` comes to.
unfoldable pub path_exists_strict : Read (Unit {0}) → Outcome Bool
path_exists_strict (content u) = value true
path_exists_strict (failed OsError.permission) = raised (raw OsError.permission)
path_exists_strict (failed e) = value false

abbrev pub deleted : Bytes
deleted = b " (deleted)"

abbrev pub unless_exists : Bytes → Bool → Bytes
unless_exists path true = path
unless_exists path false = take (length path - 10) path

-- `path.endswith(' (deleted)')`
unfoldable pub is_deleted : Bytes → Bool
unfolding same
is_deleted path = same (drop (length path - 10) path) deleted

module _ (stat : Bytes → Read (Unit {0})) where
  abbrev pub clean_stripped : Bytes → Outcome Bytes
  clean_stripped path =
      if is_deleted path
      then (do there ← path_exists_strict (stat path); value (unless_exists path there))
      else value path

  abbrev pub clean_path : Bytes → Outcome Bytes
  clean_path [] = value (b "[anon]")
  clean_path (c ∷ path) = clean_stripped (strip (c ∷ path))

  abbrev pub with_path : Bytes → Bytes → List ℕ → Bytes → Outcome Region
  with_path addr perms amounts path = do
    p ← clean_path path
    value (record { addr = addr; perms = perms; path = p; amounts = amounts })

  -- `hfields`, which are five or six.
  abbrev pub of_header : List ℕ → List Bytes → Outcome Region
  of_header amounts (addr ∷ perms ∷ offset ∷ dev ∷ inode ∷ path ∷ []) =
      with_path addr perms amounts path
  of_header amounts (addr ∷ perms ∷ offset ∷ dev ∷ inode ∷ []) = with_path addr perms amounts []
  of_header amounts _ = raised (known Error.value_error)

  -- What the body of the loop makes of a header and the dict that is yielded with it.
  unfoldable pub region : Bytes → Fields → Outcome Region
  unfolding split_max strip is_deleted path_exists_strict amounts_of
  region head fields = of_header (amounts_of fields) (split_max 5 head)

  -- `get_blocks`, with the body of the loop at each `yield`. There is one dict, which the next block
  -- goes on writing.
  abbrev pub by_line :
      Bytes
      → Bytes
      → Fields
      → (Bytes → Fields → Outcome (List Region))
      → Line
      → Outcome (List Region)
  by_line head line fields go header = do
    r ← region head fields
    rest ← go line fields
    value (r ∷ rest)
  by_line head line fields go (amount key n) = go head (insert same_bytes key n fields)
  by_line head line fields go skipped = go head fields
  by_line head line fields go (bad e) = raised (known e)

  unfoldable pub blocks : List Bytes → Bytes → Fields → Outcome (List Region)
  unfolding read_line region insert
  blocks [] head fields = do r ← region head fields; value (r ∷ [])
  blocks (line ∷ lines) head fields = by_line head line fields (blocks lines) (read_line line)

  abbrev pub of_lines : List Bytes → Outcome (List Region)
  of_lines [] = value []
  of_lines (first ∷ lines) = blocks lines first []

  -- `memory_maps`, of the stat file, which says whether the process is a zombie, and of the smaps file,
  -- stripped.
  unfoldable pub memory_maps : ℕ → Read Bytes → Bytes → Outcome (List Region)
  unfolding blocks split is_zombie
  memory_maps pid stat_file [] =
      if is_zombie stat_file then raised (known (Error.zombie_process pid)) else value []
  memory_maps pid stat_file (c ∷ smaps) = of_lines (split b'\n' (c ∷ smaps))
