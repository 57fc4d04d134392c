-- ===== src/Windows/Methods.antt =====
-- psutil/_pswindows.py: methods of `Process` that ask the C extension. What it answers is an argument;
-- `info` is the dict of `proc_oneshot` (`_oneshot`). Times are counted in clock ticks.
pub mod Fallbacks
use psutil.Prelude.{
  ℕ, zero, suc, Bool, true, false, ◌||◌, ◌==◌, Option, none, some, List, [], ◌∷◌, ◌++◌, map, Error,
  if◌then◌else◌, elem, ℕ_discrete,
}
use psutil.Prelude.Int.{ℤ, sub_ℕ}
use psutil.Prelude.Dict.{Dict, lookup}
use psutil.Text.{Bytes, b}
use psutil.Windows.Memory.{Info}
use psutil.Windows.Errors.{
  Codes, WinError, Call, returned, refused, raised, ◌>>=◌, wrap_exceptions, or_fallback,
  is_permission_err,
}

abbrev pub by_map : ℕ → Option ℕ → Call ℕ
by_map pid none = raised (Error.no_such_process pid)
by_map pid (some parent) = returned parent

-- `ppid`, of `ppid_map()`
unfoldable pub ppid : Codes → ℕ → Call ℕ → Call (Dict ℕ ℕ) → Call ℕ
unfolding wrap_exceptions or_fallback lookup
ppid codes pid proc_ppid ppid_map =
    wrap_exceptions codes pid
      (or_fallback codes proc_ppid (do m ← ppid_map; by_map pid (lookup ℕ_discrete pid m)))

abbrev fast_or_info : Bool → WinError → Call Info → Call ℕ
fast_or_info true e info = refused e
fast_or_info false e info = do i ← info; returned i.create_time

abbrev pub created : Codes → Bool → Call Info → Call (ℕ × (ℕ × ℕ)) → Call ℕ
created codes fast_only info (returned (user, (system, time))) = returned time
created codes fast_only info (refused e) =
    if is_permission_err codes e then fast_or_info fast_only e info else refused e
created codes fast_only info (raised x) = raised x

-- `create_time`, of `proc_times`
unfoldable pub create_time : Codes → ℕ → Bool → Call (ℕ × (ℕ × ℕ)) → Call Info → Call ℕ
unfolding wrap_exceptions is_permission_err
create_time codes pid fast_only proc_times info =
    wrap_exceptions codes pid (created codes fast_only info proc_times)

-- user, system, children's user, children's system
pub record CpuTimes : Type 0 where
  pub user : ℕ
  pub system : ℕ
  pub children_user : ℕ
  pub children_system : ℕ

unfoldable pub cpu_times : Codes → ℕ → Call (ℕ × (ℕ × ℕ)) → Call Info → Call CpuTimes
unfolding wrap_exceptions or_fallback
cpu_times codes pid proc_times info = wrap_exceptions codes pid (do
  times ← or_fallback codes proc_times (do i ← info; returned (i.user_time, (i.kernel_time, 0)))
  returned (record { user = times.0; system = times.1.0; children_user = 0; children_system = 0 }))

unfoldable pub num_handles : Codes → ℕ → Call ℕ → Call Info → Call ℕ
unfolding wrap_exceptions or_fallback
num_handles codes pid proc_num_handles info =
    wrap_exceptions codes pid
      (or_fallback codes proc_num_handles (do i ← info; returned i.num_handles))

unfoldable pub io_counters : Codes → ℕ → Call (List ℕ) → Call Info → Call (List ℕ)
unfolding wrap_exceptions or_fallback
io_counters codes pid proc_io_counters info =
    wrap_exceptions codes pid
      (or_fallback codes proc_io_counters (do i ← info; returned i.io_counts))

unfoldable pub num_threads : Codes → ℕ → Call Info → Call ℕ
unfolding wrap_exceptions
num_threads codes pid info = wrap_exceptions codes pid (do i ← info; returned i.num_threads)

-- voluntary, and involuntary
unfoldable pub num_ctx_switches : Codes → ℕ → Call Info → Call (ℕ × ℕ)
unfolding wrap_exceptions
num_ctx_switches codes pid info =
    wrap_exceptions codes pid (do i ← info; returned (i.ctx_switches, 0))

-- minor, and major
unfoldable pub page_faults : Codes → ℕ → Call Info → Call (ℤ × ℕ)
unfolding wrap_exceptions
page_faults codes pid info =
    wrap_exceptions codes pid
      (do i ← info; returned (sub_ℕ i.counters.page_fault_count i.hard_faults, i.hard_faults))

pub data Status : Type 0 where
  stopped running : Status

abbrev pub status_of : Bool → Status
status_of true = stopped
status_of false = running

unfoldable pub status : Codes → ℕ → Call Info → Call Status
unfolding wrap_exceptions
status codes pid info = wrap_exceptions codes pid (do i ← info; returned (status_of i.is_suspended))

-- The signals that `send_signal` tells apart, and the calls that it makes.
pub data Signal : Type 0 where
  sigterm ctrl_c ctrl_break : Signal
  other_signal : ℕ → Signal

pub data Action : Type 0 where
  proc_kill : Action
  os_kill : Signal → Action

-- `act` is what an action comes to.
abbrev pub by_signal : (Action → Call (Unit {0})) → Signal → Call (Unit {0})
by_signal act sigterm = act proc_kill
by_signal act ctrl_c = act (os_kill ctrl_c)
by_signal act ctrl_break = act (os_kill ctrl_break)
by_signal act (other_signal n) = raised Error.value_error

unfoldable pub send_signal : Codes → ℕ → (Action → Call (Unit {0})) → Signal → Call (Unit {0})
unfolding wrap_exceptions
send_signal codes pid act sig = wrap_exceptions codes pid (by_signal act sig)

-- `self.pid in {0, 4}`
abbrev pub is_system : ℕ → Bool
is_system pid = (pid == 0) || (pid == 4)

unfoldable pub username : Codes → ℕ → Call (Bytes × Bytes) → Call Bytes
unfolding wrap_exceptions
username codes pid proc_username = wrap_exceptions codes pid (
    if is_system pid
    then returned (b "NT AUTHORITY\\SYSTEM")
    else (do u ← proc_username; returned (u.0 ++ b "\\" ++ u.1)))

-- `ionice_set`: `valid` are the members of `ProcessIOPriority`, `act` is the C function at a class.
unfoldable pub ionice_set : Codes → ℕ → List ℕ → (ℕ → Call (Unit {0})) → ℕ → Bool → Call (Unit {0})
unfolding wrap_exceptions elem
ionice_set codes pid valid act ioclass value = wrap_exceptions codes pid (
    if value
    then raised Error.type_error
    else if elem ioclass valid
    then act ioclass
    else raised Error.value_error)
