-- ===== src/Process/Getters.antt =====
-- psutil/__init__.py: `Process.name`, `exe`, `status` and `pid_exists`, with nothing prefetched. What
-- the platform module and the system answer are arguments.
pub mod Answers
use psutil.Prelude.{
  ℕ, zero, suc, Bool, true, false, Option, none, some, List, [], ◌∷◌, Result, ok, err, Error, Exec,
  ◌&&◌, leb, if◌then◌else◌, length, elem,
}
use psutil.Prelude.Int.{ℤ, pos, negsuc}
use psutil.Text.{Bytes, b, starts_with, rfind, slice_from}
use psutil.Platform.{Platform, is_posix}

-- The attributes `_name` and `_exe`.
pub record Names : Type 0 where
  pub name : Option Bytes
  pub exe : Option Bytes

-- `os.path.basename` on POSIX
unfoldable pub basename : Bytes → Bytes
unfolding rfind
basename path = slice_from (rfind b'/' path) 1 path

abbrev pub keep_name : Bytes → Exec Names Bytes
keep_name n self = (ok n, record self { name = some n })

abbrev pub extended : Bytes → Bytes → Bytes
extended n long = if starts_with long n then long else n

-- The `try` block: a name that the kernel may have cut is looked up in the command line.
abbrev pub extend : Bytes → Result (List Bytes) → Exec Names Bytes
extend n (ok []) self = keep_name n self
extend n (ok (arg ∷ args)) self = keep_name (extended n (basename arg)) self
extend n (err (Error.access_denied _)) self = keep_name n self
extend n (err (Error.zombie_process _)) self = keep_name n self
extend n (err e) self = (err e, self)

abbrev pub ask_name : Platform → Result Bytes → Result (List Bytes) → Exec Names Bytes
ask_name os (ok n) cmdline self =
    if is_posix os && leb 15 (length n) then extend n cmdline self else keep_name n self
ask_name os (err e) cmdline self = (err e, self)

abbrev pub or_ask : Option Bytes → (Names → Result Bytes × Names) → Exec Names Bytes
or_ask (some n) ask self = (ok n, self)
or_ask none ask self = ask self

-- `name`, of the answers of `_proc.name()` and `cmdline()`. Only Windows reads the cache.
unfoldable pub name : Platform → Result Bytes → Result (List Bytes) → Exec Names Bytes
unfolding basename starts_with
name Platform.windows answer cmdline self =
    or_ask self.name (ask_name Platform.windows answer cmdline) self
name os answer cmdline self = ask_name os answer cmdline self

-- `guess_it`: `runnable` is `os.path.isfile(exe) and os.access(exe, os.X_OK)`.
unfoldable pub guess : (Bytes → Bool) → Result Bytes → Result (List Bytes) → Result Bytes
unfolding starts_with
guess runnable fallback (ok []) = fallback
guess runnable fallback (ok (arg ∷ args)) =
    if starts_with arg (b "/") && runnable arg then ok arg else fallback
guess runnable fallback (err e) = err e

abbrev pub keep_exe : Bytes → Exec Names Bytes
keep_exe e self = (ok e, record self { exe = some e })

-- `except AccessDenied: pass`
abbrev pub or_empty : Result Bytes → Exec Names Bytes
or_empty (ok e) self = keep_exe e self
or_empty (err (Error.access_denied _)) self = keep_exe [] self
or_empty (err e) self = (err e, self)

abbrev pub ask_exe : (Bytes → Bool) → Result Bytes → Result (List Bytes) → Exec Names Bytes
ask_exe runnable (ok []) cmdline self = or_empty (guess runnable (ok []) cmdline) self
ask_exe runnable (ok (c ∷ e)) cmdline self = keep_exe (c ∷ e) self
ask_exe runnable (err (Error.access_denied p)) cmdline self =
    (guess runnable (err (Error.access_denied p)) cmdline, self)
ask_exe runnable (err e) cmdline self = (err e, self)

-- `exe`, of the answers of `_proc.exe()` and `cmdline()`.
unfoldable pub exe : (Bytes → Bool) → Result Bytes → Result (List Bytes) → Exec Names Bytes
unfolding guess
exe runnable answer cmdline self = or_ask self.exe (ask_exe runnable answer cmdline) self

-- `status`
unfoldable pub status : Result Bytes → Result Bytes
status (err (Error.zombie_process _)) = ok (b "zombie")
status answer = answer

abbrev pub is_listed : ℕ → Result (List ℕ) → Result Bool
is_listed n (ok pids) = ok (elem n pids)
is_listed n (err e) = err e

-- `pid_exists`, of what `pids()` and the platform module's `pid_exists` answer.
unfoldable pub pid_exists : Platform → Result (List ℕ) → (ℕ → Result Bool) → ℤ → Result Bool
pid_exists os listing exists (negsuc n) = ok false
pid_exists os listing exists (pos zero) = if is_posix os then is_listed 0 listing else exists 0
pid_exists os listing exists (pos (suc n)) = exists (suc n)
