-- ===== src/Windows/Services.antt =====
-- psutil/_pswindows.py: `WindowsService` and `win_service_get`.
pub mod Consistent
use psutil.Prelude.{ℕ, zero, suc, Bool, true, false, ◌||◌, ◌==◌, Option, none, some, if◌then◌else◌}
use psutil.Text.{Bytes, same}
use psutil.Windows.Errors.{Codes, WinError, is_permission_err}

-- A `WindowsService` object; the name that is displayed may be None.
pub record Service : Type 0 where
  pub service_name : Bytes
  pub cached_display_name : Option Bytes

-- What a query comes to: AccessDenied and NoSuchProcess, both without a PID, or an `OSError` as it is.
pub data Query (A : Type 0) : Type 0 where
  found : A → Query A
  denied no_such_service : Query A
  failed : WinError → Query A

infixl 5 ◌>>=◌
abbrev pub ◌>>=◌ : {A B : Type 0} → Query A → (A → Query B) → Query B
found a >>= f = f a
denied >>= f = denied
no_such_service >>= f = no_such_service
failed e >>= f = failed e

-- `__eq__`, of two services
unfoldable pub eq : Service → Service → Bool
unfolding same
eq s t = same s.service_name t.service_name

abbrev is_unknown : Codes → WinError → Bool
is_unknown codes e =
    (e.winerror == codes.invalid_name) || (e.winerror == codes.service_does_not_exist)

-- `_wrap_exceptions`
unfoldable pub translated : {A : Type 0} → Codes → Query A → Query A
unfolding is_permission_err
translated codes (failed e) =
    if is_permission_err codes e
    then denied
    else if is_unknown codes e
    then no_such_service
    else failed e
translated codes q = q

-- What the C extension answers of a service.
pub record Config : Type 0 where
  pub display_name : Bytes
  pub binpath : Bytes
  pub username : Bytes
  pub start_type : Bytes

pub record Answers : Type 0 where
  pub query_config : Bytes → Query Config
  pub query_status : Bytes → Query (Bytes × ℕ)
  pub query_descr : Bytes → Query Bytes

-- What `as_dict` returns.
pub record ServiceInfo : Type 0 where
  pub display_name : Option Bytes
  pub binpath : Bytes
  pub username : Bytes
  pub start_type : Bytes
  pub status : Bytes
  pub pid : Option ℕ
  pub name : Bytes
  pub description : Bytes

abbrev no_zero : ℕ → Option ℕ
no_zero zero = none
no_zero (suc n) = some (suc n)

abbrev pub info : Service → Config → Bytes × Option ℕ → Bytes → ServiceInfo
info s c r d = record {
  display_name = s.cached_display_name;
  binpath = c.binpath;
  username = c.username;
  start_type = c.start_type;
  status = r.0;
  pid = r.1;
  name = s.service_name;
  description = d;
}

module _ (codes : Codes) (answers : Answers) where
  unfoldable pub query_config : Service → Query Config
  unfolding translated
  query_config s = translated codes (answers.query_config s.service_name)

  unfoldable pub query_status : Service → Query (Bytes × Option ℕ)
  unfolding translated
  query_status s = do
    r ← translated codes (answers.query_status s.service_name)
    found (r.0, no_zero r.1)

  unfoldable pub binpath : Service → Query Bytes
  unfolding query_config
  binpath s = do c ← query_config s; found c.binpath

  unfoldable pub username : Service → Query Bytes
  unfolding query_config
  username s = do c ← query_config s; found c.username

  unfoldable pub start_type : Service → Query Bytes
  unfolding query_config
  start_type s = do c ← query_config s; found c.start_type

  unfoldable pub pid : Service → Query (Option ℕ)
  unfolding query_status
  pid s = do r ← query_status s; found r.1

  unfoldable pub status : Service → Query Bytes
  unfolding query_status
  status s = do r ← query_status s; found r.0

  unfoldable pub description : Service → Query Bytes
  description s = answers.query_descr s.service_name

  unfoldable pub as_dict : Service → Query ServiceInfo
  unfolding query_config query_status description
  as_dict s = do c ← query_config s; r ← query_status s; d ← description s; found (info s c r d)

  unfoldable pub win_service_get : Bytes → Query Service
  unfolding query_config
  win_service_get name = do
    c ← query_config (record { service_name = name; cached_display_name = none })
    found (record { service_name = name; cached_display_name = some c.display_name })
