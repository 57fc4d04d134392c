-- ===== src/Linux/Files/Wrapped.antt =====
-- Which exceptions leave the methods of the Linux process object.
use psutil.Prelude.{ℕ, ◌≡◌, ◌≢◌, ◌⊎◌, Bool, true, false, Error, arith}
use psutil.Text.{Bytes}
use psutil.Linux.Files.{
  OsError, Read, Outcome, value, raised, known, raw, is_zombie, raise_if_zombie, wrap_exceptions,
}

-- A wrapped method lets an `OSError` out as it is only where the method raised that error; it lets no
-- `PermissionError` or `ProcessLookupError` out, and `FileNotFoundError` only if the process is no
-- zombie and its stat file exists.
pub wrap_exceptions_raw :
    {A : Type 0} (pid : ℕ) (stat : Read Bytes) (exists : Bool) (o : Outcome A) (e : OsError)
    → wrap_exceptions pid stat exists o ≡ raised (raw e)
    → (o ≡ raised (raw e))
      × (e ≢ OsError.permission)
      × (e ≢ OsError.lookup)
      × ((e ≢ OsError.not_found) ⊎ ((is_zombie stat ≡ false) × (exists ≡ true)))
unfolding wrap_exceptions raise_if_zombie
wrap_exceptions_raw pid stat exists (value a) e h = cc
wrap_exceptions_raw pid stat exists (raised (known x)) e h = cc
wrap_exceptions_raw pid stat exists (raised (raw OsError.permission)) e h = cc
wrap_exceptions_raw pid stat exists (raised (raw OsError.lookup)) e h = ground (arith, h)
wrap_exceptions_raw pid stat exists (raised (raw OsError.not_found)) e h = ground (arith, h)
wrap_exceptions_raw pid stat exists (raised (raw OsError.invalid)) e h = ground (arith, h)
wrap_exceptions_raw pid stat exists (raised (raw OsError.name_too_long)) e h = ground (arith, h)
wrap_exceptions_raw pid stat exists (raised (raw OsError.other)) e h = ground (arith, h)

-- What a wrapped method raises, the process being gone or out of reach, is about the process itself.
pub wrap_exceptions_known :
    {A : Type 0} (pid : ℕ) (stat : Read Bytes) (exists : Bool) (e : OsError) (x : Error)
    → wrap_exceptions {A = A} pid stat exists (raised (raw e)) ≡ raised (known x)
    → (x ≡ Error.access_denied pid)
      ⊎ ((x ≡ Error.no_such_process pid) ⊎ (x ≡ Error.zombie_process pid))
unfolding wrap_exceptions raise_if_zombie
wrap_exceptions_known pid stat exists e x h = ground (arith, h)
