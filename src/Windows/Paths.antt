-- ===== src/Windows/Paths.antt =====
-- psutil/_pswindows.py: `convert_dos_path`, and the methods `exe` (on CPython) and `name` of `Process`.
pub mod Drives
use psutil.Prelude.{
  ℕ, zero, suc, Bool, true, false, ◌||◌, ◌==◌, List, [], ◌∷◌, ◌++◌, take, drop, length, get_or,
  if◌then◌else◌,
}
use psutil.Text.{Bytes, b, same, starts_with, split}
use psutil.Text.Split.{join}
use psutil.Windows.Errors.{Codes, Call, returned, ◌>>=◌, wrap_exceptions}

abbrev pub backslash : ℕ
backslash = 92

abbrev pub prefix : ℕ → List Bytes → Bytes
prefix n parts = join backslash (take n parts)

-- `rawdrive in {"\\??\\UNC", "\\Device\\Mup"}`
unfoldable pub is_network : Bytes → Bool
unfolding same
is_network rawdrive = same rawdrive (b "\\??\\UNC") || same rawdrive (b "\\Device\\Mup")

-- `path_join` is `os.path.join`, `query` is `_psutil.QueryDosDevice`.
module _ (path_join : Bytes → Bytes → Bytes) (query : Bytes → Call Bytes) where
  -- The end of `convert_dos_path`: the drive letter, and what follows the raw drive.
  abbrev pub joined : Bytes → Bytes → Bytes → Call Bytes
  joined s rawdrive letter = returned (path_join letter (drop (length rawdrive) s))

  abbrev pub by_drive : Bytes → List Bytes → Bytes → Call Bytes
  by_drive s parts rawdrive =
      if is_network rawdrive
      then joined s (prefix 5 parts)
          (backslash ∷ backslash ∷ join backslash (drop 3 (take 5 parts)))
      else if starts_with rawdrive (b "\\??\\")
      then joined s rawdrive (get_or parts 2 [])
      else (do letter ← query rawdrive; joined s rawdrive letter)

  abbrev pub by_parts : Bytes → List Bytes → Call Bytes
  by_parts s parts =
      if starts_with s (b "\\\\") then returned s else by_drive s parts (prefix 3 parts)

  unfoldable pub convert_dos_path : Bytes → Call Bytes
  unfolding starts_with split join is_network
  convert_dos_path s = by_parts s (split backslash s)

  abbrev pub converted : Bytes → Call Bytes
  converted path = if starts_with path (b "\\") then convert_dos_path path else returned path

  -- Of what `_psutil.proc_exe` answers.
  unfoldable pub exe : Codes → ℕ → Call Bytes → Call Bytes
  unfolding convert_dos_path wrap_exceptions
  exe codes pid proc_exe = wrap_exceptions codes pid (do path ← proc_exe; converted path)

  -- `basename` is `os.path.basename`.
  unfoldable pub name : (Bytes → Bytes) → Codes → ℕ → Call Bytes → Call Bytes
  unfolding exe
  name basename codes pid proc_exe =
      if pid == 0
      then returned (b "System Idle Process")
      else if pid == 4
      then returned (b "System")
      else (do path ← exe codes pid proc_exe; returned (basename path))
