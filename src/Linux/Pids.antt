-- ===== src/Linux/Pids.antt =====
-- psutil/_pslinux.py: `pids` and `pid_exists`.
pub mod Exists
use psutil.Prelude.{
  ℕ, zero, suc, ◌+◌, Bool, true, false, Option, none, some, List, [], ◌∷◌, Result, ok, err, Error,
  ◌>>=◌, ◌==◌, ◌&&◌, if◌then◌else◌, take, drop, elem,
}
use psutil.Text.{Bytes, b, starts_with, words, to_int, strip, is_digit}
use psutil.Linux.Files.{OsError, Read, content, failed}
use psutil.Linux.Stat.{field}

-- `x.isdigit()`
unfoldable pub all_digits : Bytes → Bool
unfolding is_digit
all_digits [] = false
all_digits (c ∷ []) = is_digit c
all_digits (c ∷ d ∷ s) = is_digit c && all_digits (d ∷ s)

-- `pids`, of the names in the directory
unfoldable pub pids : List Bytes → Result (List ℕ)
unfolding all_digits to_int
pids [] = ok []
pids (x ∷ names) =
    let rest = pids names in
    if all_digits x then (do n ← to_int 10 x; ns ← rest; ok (n ∷ ns)) else rest

-- The loop over the status file: `ValueError` if no line begins with `Tgid:`.
unfoldable pub tgid_of : List Bytes → Result ℕ
unfolding starts_with words to_int
tgid_of [] = err Error.value_error
tgid_of (line ∷ lines) =
    let rest = tgid_of lines in
    if starts_with line (b "Tgid:") then (do w ← field (words line) 1; to_int 10 w) else rest

abbrev pub is_listed : ℕ → Result (List ℕ) → Result Bool
is_listed pid (ok l) = ok (elem pid l)
is_listed pid (err e) = err e

-- `except (OSError, ValueError)`
abbrev pub by_tgid : ℕ → Result (List ℕ) → Result ℕ → Result Bool
by_tgid pid listing (ok tgid) = ok (tgid == pid)
by_tgid pid listing (err Error.value_error) = is_listed pid listing
by_tgid pid listing (err e) = err e

abbrev pub by_status : ℕ → Result (List ℕ) → Read (List Bytes) → Result Bool
by_status pid listing (content lines) = by_tgid pid listing (tgid_of lines)
by_status pid listing (failed e) = is_listed pid listing

-- `pid_exists`: `known` is what `_psposix.pid_exists` answers, `listing` what `pids` does.
unfoldable pub pid_exists : Result Bool → Read (List Bytes) → Result (List ℕ) → ℕ → Result Bool
unfolding tgid_of
pid_exists (ok false) status listing pid = ok false
pid_exists (ok true) status listing pid = by_status pid listing status
pid_exists (err e) status listing pid = err e
