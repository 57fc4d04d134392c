-- ===== src/Process/Setters/Guarded.antt =====
-- Setters act on the process that the object was made for.
use psutil.Prelude.{
  ℕ, ◌≡◌, ◌≢◌, refl, sym, subst, false, Option, none, some, List, ◌∷◌, Result, ok, err, arith,
}
use psutil.Prelude.Int.{ℤ, pos}
use psutil.Platform.{Platform}
use psutil.Process.Defs.{Kernel, World, Request, nice_set, ionice_set, rlimit_set, cpu_affinity_set}
use psutil.Process.Identity.{init}
use psutil.Process.Running.{raise_if_pid_reused}
use psutil.Process.Running.Verdict.{IsLive}
use psutil.Process.Signals.{and_then, proc_method}
use psutil.Process.Signals.Safety.{
  taken_by_other, raise_if_pid_reused-owner, requests-raise_if_pid_reused,
}
use psutil.Process.Setters.{
  answer, returns_none, guarded, nice, ionice, rlimit, sorted_set, all_if_empty, set_cpus,
  cpu_affinity,
}

-- A call of one of the methods that get or set.
pub data Setting : Type 0 where
  call_nice : Option ℤ → Setting
  call_ionice : Option ℕ → Option ℤ → Setting
  call_rlimit : ℕ → Option (ℤ × ℤ) → Setting
  call_cpu_affinity : Option (List ℕ) → Setting

-- What the getters answer.
pub record Got : Type 0 where
  pub nice : Result ℤ
  pub ionice : Result ℕ
  pub rlimit : ℕ → Result (ℤ × ℤ)
  pub cpus : Result (List ℕ)
  pub eligible : Result (List ℕ)

-- The state that a call leaves.
unfoldable pub after : Platform → Kernel → Kernel → Got → Setting → World → World
unfolding nice ionice rlimit cpu_affinity
after os k k' got (call_nice v) w = (nice os k k' got.nice v w).1
after os k k' got (call_ionice c v) w = (ionice os k k' got.ionice c v w).1
after os k k' got (call_rlimit r v) w = (rlimit os k k' got.rlimit r v w).1
after os k k' got (call_cpu_affinity v) w = (cpu_affinity os k k' got.cpus got.eligible v w).1

-- One request, to the object's own PID, where the PID had no other owner at the check.
abbrev pub IsOwn : Platform → Kernel → World → World → Type 0
IsOwn os k w w' =
    ((r : Request) × (w'.requests ≡ (w.pid, r) ∷ w.requests))
    × (taken_by_other w.self (init os k false (some (pos w.pid))) ≡ false)

answer-requests : {A : Type 0} (r : Result A) (w : World) → (answer r w).1.requests ≡ w.requests
answer-requests (ok a) w = refl
answer-requests (err e) w = refl

sorted_answer-requests :
    (os : Platform) (k k' : Kernel) (r eligible : Result (List ℕ)) (w : World)
    → (cpu_affinity os k k' r eligible none w).1.requests ≡ w.requests
unfolding cpu_affinity
sorted_answer-requests os k k' (ok a) eligible w = refl
sorted_answer-requests os k k' (err e) eligible w = refl

returns_none-world : (A : Type 0) (x : Result (Unit {0}) × World) → (returns_none {A = A} x).1 ≡ x.1
returns_none-world A (ok u, w) = refl
returns_none-world A (err e, w) = refl

module _ (os : Platform) (k k' : Kernel) (w : World) (live : IsLive w) where
  checked-IsOwn :
      (r : Request)
      → (and_then (raise_if_pid_reused os k w) (proc_method k' r)).1.requests ≢ w.requests
      → IsOwn os k w (and_then (raise_if_pid_reused os k w) (proc_method k' r)).1
  checked-IsOwn r sent = (
    (r, ground (arith, requests-raise_if_pid_reused os k w)),
    raise_if_pid_reused-owner os k w live (ground (arith, requests-raise_if_pid_reused os k w)),
  )

  unchecked :
      (A : Type 0) (x : Result (Unit {0}) × World)
      → (x.1.requests ≢ w.requests → IsOwn os k w x.1)
      → (returns_none {A = A} x).1.requests ≢ w.requests
      → IsOwn os k w (returns_none {A = A} x).1
  unchecked A x h =
      subst (λ v. v.requests ≢ w.requests → IsOwn os k w v) (sym (returns_none-world A x)) h

  guarded-IsOwn :
      (A : Type 0) (r : Request)
      → (guarded {A = A} os k k' r w).1.requests ≢ w.requests
      → IsOwn os k w (guarded {A = A} os k k' r w).1
  unfolding guarded
  guarded-IsOwn A r =
      unchecked A (and_then (raise_if_pid_reused os k w) (proc_method k' r)) (checked-IsOwn r)

  cpus-IsOwn :
      (r : Result (List ℕ))
      → (and_then (raise_if_pid_reused os k w) (set_cpus k' r)).1.requests ≢ w.requests
      → IsOwn os k w (and_then (raise_if_pid_reused os k w) (set_cpus k' r)).1
  cpus-IsOwn (ok cpus) sent = checked-IsOwn (cpu_affinity_set (sorted_set cpus)) sent
  cpus-IsOwn (err e) sent = absurd (sent (ground (arith, requests-raise_if_pid_reused os k w)))

-- If a call of nice, ionice, rlimit or cpu_affinity on an object not marked gone or reused makes a
-- request to the kernel, it is one request, to the object's own PID, and the PID had no other owner at the
-- check.
pub setters-safe :
    (os : Platform) (k k' : Kernel) (got : Got) (call : Setting) (w : World)
    → IsLive w
    → (after os k k' got call w).requests ≢ w.requests
    → IsOwn os k w (after os k k' got call w)
unfolding after nice ionice rlimit
setters-safe os k k' got (call_nice none) w live sent = absurd (sent (answer-requests got.nice w))
setters-safe os k k' got (call_nice (some v)) w live sent =
    guarded-IsOwn os k k' w live _ (nice_set v) sent
setters-safe os k k' got (call_ionice none none) w live sent =
    absurd (sent (answer-requests got.ionice w))
setters-safe os k k' got (call_ionice none (some v)) w live sent = absurd (sent refl)
setters-safe os k k' got (call_ionice (some c) v) w live sent =
    guarded-IsOwn os k k' w live _ (ionice_set c v) sent
setters-safe os k k' got (call_rlimit r none) w live sent =
    absurd (sent (answer-requests (got.rlimit r) w))
setters-safe os k k' got (call_rlimit r (some v)) w live sent =
    guarded-IsOwn os k k' w live _ (rlimit_set r v) sent
setters-safe os k k' got (call_cpu_affinity none) w live sent =
    absurd (sent (sorted_answer-requests os k k' got.cpus got.eligible w))
setters-safe os k k' got (call_cpu_affinity (some v)) w live sent =
    unchecked os k k' w live _
      (and_then (raise_if_pid_reused os k w) (set_cpus k' (all_if_empty got.eligible v)))
      (cpus-IsOwn os k k' w live (all_if_empty got.eligible v)) sent
