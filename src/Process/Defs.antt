-- ===== src/Process/Defs.antt =====
-- The attributes of a `Process` object (psutil/__init__.py, `Process._init`), and what the object
-- asks of the kernel through the platform module.
use Prim.Native.String.{String}
use psutil.Prelude.{ℕ, Bool, false, Option, none, List, [], Result}
use psutil.Prelude.Int.{ℤ}
use psutil.Prelude.Dict.{Dict}

-- What a getter returns. Only `ad_value` and equality of values matter to the modelled code.
pub data Value : Type 0 where
  null : Value
  num : ℕ → Value
  text : String → Value

-- `_ident`: the PID and, if it is known, the creation time. Times are counted in clock ticks.
pub record Ident : Type 0 where
  pub pid : ℕ
  pub ctime : Option ℕ

-- `_exitcode`, `_ad_value`: `none` is `_SENTINEL`.
pub record Process : Type 0 where
  pub pid : ℕ
  pub name : Option String
  pub create_time : Option ℕ
  pub gone : Bool
  pub pid_reused : Bool
  pub hash : Option ℕ
  pub ppid : Option ℕ
  pub exitcode : Option (Option ℤ)
  pub prefetch : Dict String Value
  pub ad_value : Option Value
  pub ident : Ident

-- The outcome of `os.kill(pid, sig)`.
pub data Kill : Type 0 where
  delivered lookup_error permission_error other_error : Kill

-- The calls that act on another process: `os.kill(pid, sig)`, and on Windows `_proc.send_signal`,
-- `_proc.suspend`, `_proc.resume`, `_proc.kill`, and on every platform the setters of `_proc`.
pub data Request : Type 0 where
  os_kill send : ℕ → Request
  suspend resume kill : Request
  nice_set : ℤ → Request
  ionice_set : ℕ → Option ℤ → Request
  rlimit_set : ℕ → ℤ × ℤ → Request
  cpu_affinity_set : List ℕ → Request

-- The kernel at one moment. It is not code of this repository's Python part: a call at a later
-- moment takes another such record, and no theorem assumes that two of them agree unless it says so.
pub record Kernel : Type 0 where
  -- `os.getpid()`
  pub getpid : ℕ
  -- `_psutil.check_pid_range(pid)` does not raise `OverflowError`
  pub in_range : ℕ → Bool
  -- `_psplatform.Process(pid).create_time(monotonic=True)`
  pub create_time_monotonic : ℕ → Result ℕ
  -- `_psplatform.Process(pid).create_time(fast_only=True)`
  pub create_time_fast : ℕ → Result ℕ
  -- `_psplatform.Process(pid).create_time()`
  pub create_time : ℕ → Result ℕ
  -- `_psplatform.pid_exists(pid)`
  pub pid_exists : ℕ → Bool
  -- `os.kill(pid, sig)`
  pub kill : ℕ → ℕ → Kill
  -- the methods of `_psplatform.Process(pid)` that act on the process
  pub proc_call : Request → ℕ → Result (Unit {0})

-- The attributes that `_init` sets before it asks the kernel anything.
unfoldable pub blank : ℕ → Process
blank pid = record {
  pid = pid;
  name = none;
  create_time = none;
  gone = false;
  pid_reused = false;
  hash = none;
  ppid = none;
  exitcode = none;
  prefetch = [];
  ad_value = none;
  ident = record { pid = pid; ctime = none };
}

-- An object together with the module-level state that its methods write: the set `_pids_reused`,
-- and the requests that were made to the kernel, each with its PID, the latest first.
pub record World : Type 0 where
  pub self : Process
  pub open self use *
  pub pids_reused : List ℕ
  pub requests : List (ℕ × Request)
