-- ===== src/Linux/Files.antt =====
-- psutil/_pslinux.py: `wrap_exceptions`, `_is_zombie`, `_raise_if_zombie` and `_readlink`.
pub mod Wrapped
pub mod Bind
use psutil.Prelude.{
  ℕ, suc, ◌+◌, Bool, true, false, Option, none, some, List, [], ◌∷◌, Result, ok, err, Error,
  if◌then◌else◌, take, drop,
}
use psutil.Text.{Bytes, b, same, rfind, slice_from}

-- The `OSError` that a system call raises.
pub data OsError : Type 0 where
  not_found lookup permission invalid name_too_long other : OsError

-- What opening and reading a file, or another system call, comes to.
pub data Read (A : Type 0) : Type 0 where
  content : A → Read A
  failed : OsError → Read A

-- What a method raises: one of the exceptions of `_common.py` or of Python, or an `OSError` as it is.
pub data Raised : Type 0 where
  known : Error → Raised
  raw : OsError → Raised

pub data Outcome (A : Type 0) : Type 0 where
  value : A → Outcome A
  raised : Raised → Outcome A

-- `data[rpar + 2 : rpar + 3] == b"Z"`
unfoldable pub is_zombie : Read Bytes → Bool
is_zombie (failed e) = false
is_zombie (content stat) = same (take 1 (slice_from (rfind b')' stat) 2 stat)) (b "Z")

-- `_raise_if_zombie`, before a `raise` of `e`.
unfoldable pub raise_if_zombie : {A : Type 0} → ℕ → Read Bytes → Raised → Outcome A
unfolding is_zombie
raise_if_zombie pid stat e =
    if is_zombie stat then raised (known (Error.zombie_process pid)) else raised e

-- `wrap_exceptions`: `stat` is what reading the process's stat file comes to in the handler, `exists`
-- whether the file is there.
unfoldable pub wrap_exceptions : {A : Type 0} → ℕ → Read Bytes → Bool → Outcome A → Outcome A
unfolding raise_if_zombie
wrap_exceptions pid stat exists (value a) = value a
wrap_exceptions pid stat exists (raised (known e)) = raised (known e)
wrap_exceptions pid stat exists (raised (raw OsError.permission)) =
    raised (known (Error.access_denied pid))
wrap_exceptions pid stat exists (raised (raw OsError.lookup)) =
    raise_if_zombie pid stat (known (Error.no_such_process pid))
wrap_exceptions pid stat exists (raised (raw OsError.not_found)) =
    raise_if_zombie pid stat
      (if exists then raw OsError.not_found else known (Error.no_such_process pid))
wrap_exceptions pid stat exists (raised (raw OsError.invalid)) = raised (raw OsError.invalid)
wrap_exceptions pid stat exists (raised (raw OsError.name_too_long)) =
    raised (raw OsError.name_too_long)
wrap_exceptions pid stat exists (raised (raw OsError.other)) = raised (raw OsError.other)

abbrev or_raise : {A : Type 0} → Option A → OsError → Outcome A
or_raise (some a) e = value a
or_raise none e = raised (raw e)

-- The handler of `_readlink`; `exists` is `os.path.lexists` of the process's directory.
abbrev fall_back : {A : Type 0} → ℕ → Read Bytes → Bool → Option A → OsError → Outcome A
fall_back pid stat true fallback e =
    if is_zombie stat then raised (known (Error.zombie_process pid)) else or_raise fallback e
fall_back pid stat false fallback e = raised (raw e)

-- `_readlink`; `none` is a missing `fallback`.
unfoldable pub read_link : {A : Type 0} → ℕ → Read Bytes → Bool → Option A → Read A → Outcome A
unfolding is_zombie
read_link pid stat exists fallback (content a) = value a
read_link pid stat exists fallback (failed OsError.not_found) =
    fall_back pid stat exists fallback OsError.not_found
read_link pid stat exists fallback (failed OsError.lookup) =
    fall_back pid stat exists fallback OsError.lookup
read_link pid stat exists fallback (failed OsError.permission) = raised (raw OsError.permission)
read_link pid stat exists fallback (failed OsError.invalid) = raised (raw OsError.invalid)
read_link pid stat exists fallback (failed OsError.name_too_long) =
    raised (raw OsError.name_too_long)
read_link pid stat exists fallback (failed OsError.other) = raised (raw OsError.other)

-- `exe`
unfoldable pub exe : ℕ → Read Bytes → Bool → Bool → Read Bytes → Outcome Bytes
unfolding wrap_exceptions read_link
exe pid stat stat_exists proc_exists link =
    wrap_exceptions pid stat stat_exists (read_link pid stat proc_exists (some []) link)
