-- ===== src/Windows/Affinity/Masks.antt =====
-- CPU masks are read back.
use psutil.Prelude.{
  ℕ, zero, suc, ◌/◌, ◌%◌, ◌≡◌, ◌<◌, refl, ◌∙◌, ap, ite, true, false, ◌==◌, List, [], ◌∷◌, map,
  Result, ok, arith, elem, if◌then◌else◌, ℕ_discrete,
}
use psutil.Windows.Errors.{Codes, Call, returned, ◌>>=◌, wrap_exceptions}
use psutil.Windows.Affinity.{
  bit, or_bit, bits_from, from_bitmask, or_bits, to_bitmask, cpu, check_cpus, from_result,
  cpu_affinity_set, cpu_affinity_get,
}

half_set : (x : ℕ) → or_bit x 0 / 2 ≡ x / 2
unfolding or_bit
half_set x = ground arith

half_more : (x i : ℕ) → or_bit x (suc i) / 2 ≡ or_bit (x / 2) i
unfolding or_bit
half_more x i = omega arith

rest_more : (x i : ℕ) → or_bit x (suc i) % 2 ≡ x % 2
unfolding or_bit
rest_more x i = omega arith

-- The bits of `x | 2**i` are those of `x`, with bit `i` set.
pub bit-or_bit : (x i j : ℕ) → bit (or_bit x i) j ≡ ite (ℕ_discrete i j) true (bit x j)
unfolding bit
bit-or_bit x zero zero = unfold or_bit in ground arith
bit-or_bit x zero (suc j) = ap (λ y. bit y j) (half_set x) ∙ ground arith
bit-or_bit x (suc i) zero = ap (λ r. r == 1) (rest_more x i) ∙ ground arith
bit-or_bit x (suc i) (suc j) =
    ap (λ y. bit y j) (half_more x i) ∙ bit-or_bit (x / 2) i j ∙ ground arith

bit_zero : (j : ℕ) → bit 0 j ≡ false
unfolding bit
bit_zero zero = refl
bit_zero (suc j) = bit_zero j

bit-or_bits :
    (ls : List ℕ) (out j : ℕ) → bit (or_bits out ls) j ≡ (if elem j ls then true else bit out j)
unfolding or_bits elem
bit-or_bits [] out j = refl
bit-or_bits (i ∷ ls) out j =
    bit-or_bits ls (or_bit out i) j
    ∙ ap (λ r. if elem j ls then true else r) (bit-or_bit out i j)
    ∙ ground arith

-- `[i for i in range(i, i + n) if i in ls]`
unfoldable pub members_from : List ℕ → ℕ → ℕ → List ℕ
members_from ls i zero = []
members_from ls i (suc n) =
    let rest = members_from ls (suc i) n in if elem i ls then i ∷ rest else rest

bits_from-members :
    (x : ℕ) (ls : List ℕ) (i n : ℕ)
    → ((j : ℕ) → bit x j ≡ elem j ls)
    → bits_from x i n ≡ members_from ls i n
unfolding bits_from members_from
bits_from-members x ls i zero h = refl
bits_from-members x ls i (suc n) h = rw (h i, bits_from-members x ls (suc i) n h) refl

bit-zero_or : (ls : List ℕ) (j : ℕ) → bit (or_bits 0 ls) j ≡ elem j ls
bit-zero_or ls j = bit-or_bits ls 0 j ∙ rw (bit_zero j) ground arith

from_bitmask-or_bits : (ls : List ℕ) → from_bitmask (or_bits 0 ls) ≡ members_from ls 0 64
from_bitmask-or_bits ls =
    unfold from_bitmask in bits_from-members (or_bits 0 ls) ls 0 64 (bit-zero_or ls)

abbrev pub AllBelow : ℕ → List ℕ → Type 0
AllBelow n [] = Unit
AllBelow n (i ∷ ls) = (i < n) × AllBelow n ls

check_cpus-AllBelow : (n : ℕ) (ls : List ℕ) → AllBelow n ls → check_cpus n (map cpu ls) ≡ ok ls
unfolding check_cpus
check_cpus-AllBelow n [] h = refl
check_cpus-AllBelow n (i ∷ ls) h = ground (arith, check_cpus-AllBelow n ls h.1)

set_mask :
    (codes : Codes) (pid n : ℕ) (call : ℕ → Call (Unit {0})) (i : ℕ) (ls : List ℕ)
    → AllBelow n (i ∷ ls)
    → cpu_affinity_set codes pid n call (map cpu (i ∷ ls))
      ≡ wrap_exceptions codes pid (call (or_bits 0 (i ∷ ls)))
unfolding cpu_affinity_set to_bitmask
set_mask codes pid n call i ls h =
    ap
      (λ (r : Result (List ℕ)).
        wrap_exceptions codes pid
          (from_result r >>= (λ cpus. from_result (to_bitmask cpus) >>= call)))
      (check_cpus-AllBelow n (i ∷ ls) h)

get_mask :
    (codes : Codes) (pid : ℕ) (ls : List ℕ)
    → cpu_affinity_get codes pid (returned (or_bits 0 ls)) ≡ returned (members_from ls 0 64)
unfolding cpu_affinity_get wrap_exceptions
get_mask codes pid ls = ap returned (from_bitmask-or_bits ls)

-- For CPUs, at least one, that all exist, cpu_affinity_set calls the C function with one mask, and raises
-- what it raises; of that mask cpu_affinity_get lists those of the CPUs below 64, in order and each once.
pub cpu_affinity_get-set :
    (codes : Codes) (pid n : ℕ) (call : ℕ → Call (Unit {0})) (i : ℕ) (ls : List ℕ)
    → AllBelow n (i ∷ ls)
    → (mask : ℕ) × (cpu_affinity_set codes pid n call (map cpu (i ∷ ls))
        ≡ wrap_exceptions codes pid (call mask))
      × (cpu_affinity_get codes pid (returned mask) ≡ returned (members_from (i ∷ ls) 0 64))
cpu_affinity_get-set codes pid n call i ls h =
    (or_bits 0 (i ∷ ls), set_mask codes pid n call i ls h, get_mask codes pid (i ∷ ls))
