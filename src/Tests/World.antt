-- ===== src/Tests/World.antt =====
-- A kernel that knows one process, and an object for it.
use psutil.Prelude.{ℕ, true, false, some, none, [], ok, err, Error, ◌==◌, if◌then◌else◌, Result}
use psutil.Process.Defs.{Process, Kernel, Kill, World}

abbrev only : ℕ → ℕ → ℕ → Result ℕ
only pid t n = if n == pid then ok t else err (Error.no_such_process n)

-- PID `pid` has run since `t`; every signal has the outcome `k`.
abbrev pub kernel : ℕ → ℕ → Kill → Kernel
kernel pid t k = record {
  getpid = 1;
  in_range = λ n. true;
  create_time_monotonic = only pid t;
  create_time_fast = only pid t;
  create_time = only pid t;
  pid_exists = λ n. n == pid;
  kill = λ n sig. k;
  proc_call = λ r n. ok tt;
}

abbrev pub process : ℕ → ℕ → Process
process pid t = record {
  pid = pid;
  name = none;
  create_time = none;
  gone = false;
  pid_reused = false;
  hash = none;
  ppid = none;
  exitcode = none;
  prefetch = [];
  ad_value = none;
  ident = record { pid = pid; ctime = some t };
}

abbrev pub world : World
world = record { self = process 7 100; pids_reused = []; requests = [] }
