-- ===== src/Tests/Processors.antt =====
-- CPU percentages on small readings.
use psutil.Prelude.{◌+◌, ◌-◌, ◌*◌, ◌≤◌, ◌≡◌, none, some, List, [], ◌∷◌, ok, arith, refl}
use psutil.Prelude.Int.{pos}
use psutil.Platform.{Platform}
use psutil.Cpu.{Times, Last, calculate, calculate_fields, cpu_percent, or_zero, round_ratio}
use psutil.Cpu.Bounds.{calculate-le}
use psutil.Cpu.Threads.{Call, system_wide, per_cpu, after_calls, cpu_percent_threads}
use psutil.Cpu.Short.{idled, calculate_fields_short}
use psutil.Cpu.OneProcess.{ProcTimes, LastTimes, proc_cpu_percent}
use psutil.Cpu.OneProcess.Share.{proc_cpu_percent_one_cpu}

abbrev early : Times
early = record {
  user = 100;
  system = 50;
  idle = 800;
  nice = 0;
  iowait = 5;
  guest = 10;
  guest_nice = 0;
  others = 3 ∷ 2 ∷ [];
}

abbrev late : Times
late = record {
  user = 160;
  system = 60;
  idle = 825;
  nice = 0;
  iowait = 10;
  guest = 10;
  guest_nice = 0;
  others = 3 ∷ 2 ∷ [];
}

abbrev no_last : Last
no_last = record { total = []; per_cpu = [] }

half_busy : calculate Platform.linux early late ≡ 700
unfolding calculate
half_busy = refl

calculate-le_run : calculate Platform.linux early late ≤ 1000
calculate-le_run = calculate-le Platform.linux early late

-- Two calls by thread 8, and one per CPU by thread 7.
abbrev between : List Call
between =
    system_wide none 8 early late
    ∷ per_cpu none 7 (early ∷ []) (late ∷ [])
    ∷ system_wide (some (pos 2)) 8 late late
    ∷ []

cpu_percent_threads_example :
    (cpu_percent Platform.linux none 7 early late (
      after_calls Platform.linux between
        (cpu_percent Platform.linux (some (pos 1)) 7 early early no_last).1)).0
    ≡ ok (calculate Platform.linux early late)
cpu_percent_threads_example =
    cpu_percent_threads Platform.linux 7 (some (pos 1)) early early early late between no_last refl
      ((λ e. omega (arith, e)), ((λ e. omega (arith, e)), tt))

-- 40 of 100 ticks of a second, all of them idle: 40% is reported.
idle_share : (calculate_fields 100 Platform.linux early (idled 40 early)).idle ≡ 400
unfolding calculate_fields
idle_share = refl

calculate_fields_short_example :
    (calculate_fields 100 Platform.linux early (idled 40 early)).idle ≤ 500
calculate_fields_short_example =
    calculate_fields_short 100 Platform.linux early 40 (omega arith) (omega arith)

abbrev began : ProcTimes
began = record { user = 10; system = 5 }

abbrev ended : ProcTimes
ended = record { user = 40; system = 15 }

abbrev no_times : LastTimes
no_times = record { sys = none; proc = none }

proc_cpu_percent_one_cpu_run :
    (proc_cpu_percent none
      (some 4)
      0
      began
      120
      ended
      (proc_cpu_percent none (some 4) 0 began 100 began no_times).1).0
    ≡ ok (pos (or_zero (round_ratio (1000 * (40 - 10 + (15 - 5))) (120 - 100))))
proc_cpu_percent_one_cpu_run =
    proc_cpu_percent_one_cpu (some 4) 0 0 100 120 began began began ended no_times (omega arith)
      (omega arith) (omega arith)
