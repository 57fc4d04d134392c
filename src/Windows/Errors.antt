-- ===== src/Windows/Errors.antt =====
-- psutil/_pswindows.py: `is_permission_err`, `convert_oserror`, `wrap_exceptions`.
pub mod Handled
use psutil.Prelude.{ℕ, Bool, true, false, ◌||◌, ◌==◌, Error, if◌then◌else◌}

-- The class of an `OSError`, as far as the handlers tell them apart.
pub data Kind : Type 0 where
  permission process_lookup not_a_directory other : Kind

pub record WinError : Type 0 where
  pub kind : Kind
  pub winerror : ℕ

-- The constants of the C extension.
pub record Codes : Type 0 where
  pub access_denied : ℕ
  pub privilege_not_held : ℕ
  pub invalid_name : ℕ
  pub service_does_not_exist : ℕ

-- What a call of the C extension, or a method, comes to: a value, an `OSError`, or another exception.
pub data Call (A : Type 0) : Type 0 where
  returned : A → Call A
  refused : WinError → Call A
  raised : Error → Call A

infixl 5 ◌>>=◌
abbrev pub ◌>>=◌ : {A B : Type 0} → Call A → (A → Call B) → Call B
returned a >>= f = f a
refused e >>= f = refused e
raised e >>= f = raised e

abbrev by_code : Codes → ℕ → Bool
by_code codes n = (n == codes.access_denied) || (n == codes.privilege_not_held)

abbrev by_kind : Codes → Kind → ℕ → Bool
by_kind codes Kind.permission n = true
by_kind codes Kind.process_lookup n = by_code codes n
by_kind codes Kind.not_a_directory n = by_code codes n
by_kind codes Kind.other n = by_code codes n

unfoldable pub is_permission_err : Codes → WinError → Bool
is_permission_err codes e = by_kind codes e.kind e.winerror

abbrev of_kind : {A : Type 0} → ℕ → Kind → WinError → Call A
of_kind pid Kind.process_lookup e = raised (Error.no_such_process pid)
of_kind pid _ e = refused e

-- `raise convert_oserror(exc, pid)`, which raises what it returns or `exc` itself.
unfoldable pub convert_oserror : {A : Type 0} → Codes → ℕ → WinError → Call A
unfolding is_permission_err
convert_oserror codes pid e =
    if is_permission_err codes e then raised (Error.access_denied pid) else of_kind pid e.kind e

unfoldable pub wrap_exceptions : {A : Type 0} → Codes → ℕ → Call A → Call A
unfolding convert_oserror
wrap_exceptions codes pid (returned a) = returned a
wrap_exceptions codes pid (refused e) = convert_oserror codes pid e
wrap_exceptions codes pid (raised e) = raised e

-- `except OSError as err: if is_permission_err(err): return fallback; raise`
unfoldable pub or_fallback : {A : Type 0} → Codes → Call A → Call A → Call A
unfolding is_permission_err
or_fallback codes (returned a) fallback = returned a
or_fallback codes (refused e) fallback = if is_permission_err codes e then fallback else refused e
or_fallback codes (raised e) fallback = raised e
