-- ===== src/Windows/Affinity.antt =====
-- psutil/_pswindows.py: `Process.cpu_affinity_get` and `Process.cpu_affinity_set`.
pub mod Masks
use psutil.Prelude.{
  ℕ, zero, suc, ◌+◌, ◌*◌, ◌/◌, ◌%◌, Bool, true, false, ◌==◌, ltb, List, [], ◌∷◌, Result, ok, err,
  Error, if◌then◌else◌,
}
use psutil.Windows.Errors.{Codes, Call, returned, raised, ◌>>=◌, wrap_exceptions}

-- `(1 << i) & x`, as a condition
unfoldable pub bit : ℕ → ℕ → Bool
bit x zero = x % 2 == 1
bit x (suc i) = bit (x / 2) i

-- `x | 2**i`
unfoldable pub or_bit : ℕ → ℕ → ℕ
or_bit x zero = if x % 2 == 1 then x else x + 1
or_bit x (suc i) = x % 2 + 2 * or_bit (x / 2) i

-- `[i for i in range(i, i + n) if (1 << i) & x]`
unfoldable pub bits_from : ℕ → ℕ → ℕ → List ℕ
unfolding bit
bits_from x i zero = []
bits_from x i (suc n) = let rest = bits_from x (suc i) n in if bit x i then i ∷ rest else rest

unfoldable pub from_bitmask : ℕ → List ℕ
unfolding bits_from
from_bitmask x = bits_from x 0 64

-- `for b in ls: out |= 2**b`
unfoldable pub or_bits : ℕ → List ℕ → ℕ
unfolding or_bit
or_bits out [] = out
or_bits out (i ∷ ls) = or_bits (or_bit out i) ls

unfoldable pub to_bitmask : List ℕ → Result ℕ
unfolding or_bits
to_bitmask [] = err Error.value_error
to_bitmask (i ∷ ls) = ok (or_bits 0 (i ∷ ls))

-- What a caller may pass as a CPU.
pub data Cpu : Type 0 where
  cpu : ℕ → Cpu
  negative no_int : Cpu

abbrev keep_cpu : ℕ → ℕ → Result (List ℕ) → Result (List ℕ)
keep_cpu allcpus i rest = if ltb i allcpus then rest else err Error.value_error

abbrev put : ℕ → Result (List ℕ) → Result (List ℕ)
put i (ok ls) = ok (i ∷ ls)
put i (err e) = err e

-- The loop that checks the CPUs: the numbers, or what the first that is not below `allcpus` raises.
unfoldable pub check_cpus : ℕ → List Cpu → Result (List ℕ)
check_cpus allcpus [] = ok []
check_cpus allcpus (cpu i ∷ value) = keep_cpu allcpus i (put i (check_cpus allcpus value))
check_cpus allcpus (negative ∷ value) = err Error.value_error
check_cpus allcpus (no_int ∷ value) = err Error.type_error

abbrev pub from_result : {A : Type 0} → Result A → Call A
from_result (ok a) = returned a
from_result (err e) = raised e

-- `call` is the C function at a mask, `allcpus` the number of CPUs that `per_cpu_times` lists.
unfoldable pub cpu_affinity_set : Codes → ℕ → ℕ → (ℕ → Call (Unit {0})) → List Cpu → Call (Unit {0})
unfolding check_cpus to_bitmask wrap_exceptions
cpu_affinity_set codes pid allcpus call value =
    wrap_exceptions codes pid (do
      ls ← from_result (check_cpus allcpus value)
      mask ← from_result (to_bitmask ls)
      call mask)

-- Of what the C function answers.
unfoldable pub cpu_affinity_get : Codes → ℕ → Call ℕ → Call (List ℕ)
unfolding from_bitmask wrap_exceptions
cpu_affinity_get codes pid call =
    wrap_exceptions codes pid (do bitmask ← call; returned (from_bitmask bitmask))
