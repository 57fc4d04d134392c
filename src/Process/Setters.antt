-- ===== src/Process/Setters.antt =====
-- psutil/__init__.py: `Process.nice`, `ionice`, `rlimit` and `cpu_affinity`, with nothing prefetched.
-- The getters' answers are arguments; a method that sets something takes a kernel for the check and
-- one for the call.
pub mod Guarded
pub mod Sorted
use psutil.Prelude.{
  ℕ, Bool, true, false, Option, none, some, List, [], ◌∷◌, Result, ok, err, Error, Exec,
  if◌then◌else◌, elem, ltb, ◌==◌,
}
use psutil.Prelude.Int.{ℤ}
use psutil.Platform.{Platform}
use psutil.Process.Defs.{Kernel, World, Request, nice_set, ionice_set, rlimit_set, cpu_affinity_set}
use psutil.Process.Running.{raise_if_pid_reused}
use psutil.Process.Signals.{and_then, proc_method}

-- What a method returns that gets or sets: `none` is the None of a setter.
abbrev pub answer : {A : Type 0} → Result A → Exec World (Option A)
answer (ok a) w = (ok (some a), w)
answer (err e) w = (err e, w)

abbrev pub returns_none : {A : Type 0} → Result (Unit {0}) × World → Result (Option A) × World
returns_none (ok u, w) = (ok none, w)
returns_none (err e, w) = (err e, w)

-- A setter: the check, and then the call.
unfoldable pub guarded : {A : Type 0} → Platform → Kernel → Kernel → Request → Exec World (Option A)
guarded os k k' r w = returns_none (and_then (raise_if_pid_reused os k w) (proc_method k' r))

unfoldable pub nice : Platform → Kernel → Kernel → Result ℤ → Option ℤ → Exec World (Option ℤ)
unfolding guarded
nice os k k' got none w = answer got w
nice os k k' got (some value) w = guarded os k k' (nice_set value) w

unfoldable pub ionice :
    {A : Type 0}
    → Platform
    → Kernel
    → Kernel
    → Result A
    → Option ℕ
    → Option ℤ
    → Exec World (Option A)
unfolding guarded
ionice os k k' got none (some value) w = (err Error.value_error, w)
ionice os k k' got none none w = answer got w
ionice os k k' got (some ioclass) value w = guarded os k k' (ionice_set ioclass value) w

unfoldable pub rlimit :
    Platform
    → Kernel
    → Kernel
    → (ℕ → Result (ℤ × ℤ))
    → ℕ
    → Option (ℤ × ℤ)
    → Exec World (Option (ℤ × ℤ))
unfolding guarded
rlimit os k k' got resource none w = answer (got resource) w
rlimit os k k' got resource (some limits) w = guarded os k k' (rlimit_set resource limits) w

-- `sorted(set(cpus))`
unfoldable pub put_sorted : ℕ → List ℕ → List ℕ
put_sorted n [] = n ∷ []
put_sorted n (x ∷ l) =
    let rest = put_sorted n l in if n == x then x ∷ l else if ltb n x then n ∷ x ∷ l else x ∷ rest

unfoldable pub sorted_set : List ℕ → List ℕ
unfolding put_sorted
sorted_set [] = []
sorted_set (n ∷ l) = put_sorted n (sorted_set l)

-- The setter's call is `cpu_affinity_set(list(set(cpus)))`, in any order: here in increasing order.
-- `eligible` is `_get_eligible_cpus()`, or the CPUs that `cpu_times(percpu=True)` lists.
abbrev pub all_if_empty : Result (List ℕ) → List ℕ → Result (List ℕ)
all_if_empty eligible [] = eligible
all_if_empty eligible (cpu ∷ cpus) = ok (cpu ∷ cpus)

abbrev pub set_cpus : Kernel → Result (List ℕ) → Exec World (Unit {0})
set_cpus k (ok cpus) w = proc_method k (cpu_affinity_set (sorted_set cpus)) w
set_cpus k (err e) w = (err e, w)

abbrev sorted_answer : Result (List ℕ) → Exec World (Option (List ℕ))
sorted_answer (ok cpus) w = (ok (some (sorted_set cpus)), w)
sorted_answer (err e) w = (err e, w)

unfoldable pub cpu_affinity :
    Platform
    → Kernel
    → Kernel
    → Result (List ℕ)
    → Result (List ℕ)
    → Option (List ℕ)
    → Exec World (Option (List ℕ))
unfolding sorted_set
cpu_affinity os k k' got eligible none w = sorted_answer got w
cpu_affinity os k k' got eligible (some cpus) w =
    returns_none (and_then (raise_if_pid_reused os k w) (set_cpus k' (all_if_empty eligible cpus)))
