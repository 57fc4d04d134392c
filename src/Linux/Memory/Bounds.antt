-- ===== src/Linux/Memory/Bounds.antt =====
-- The numbers of `virtual_memory` and `swap_memory` fit together.
use psutil.Prelude.{
  ℕ, zero, suc, ◌-◌, ◌*◌, ◌≤◌, ◌≡◌, refl, List, ok, arith, AllOk, any-AllOk, ok-AllOk,
}
use psutil.Prelude.Int.{ℤ, pos, negsuc, sub_ℕ}
use psutil.Text.{Bytes, b}
use psutil.Cpu.{nearest}
use psutil.Cpu.Bounds.{nearest-le}
use psutil.Cpu.OneProcess.{signed_ratio}
use psutil.Linux.Files.{Read}
use psutil.Linux.Memory.{
  usage_percent, Mems, get, or_key_error, avail_of, clamp, calculate_avail_vmem, virtual_memory,
  Svmem,
}

clamp-le : (total free : ℕ) (n : ℤ) → free ≤ total → clamp total free n ≤ total
unfolding clamp
clamp-le total free (pos n) h = ground arith
clamp-le total free (negsuc n) h = omega arith

pub usage_percent-le :
    (used total : ℕ)
    → used ≤ total
    → (p : ℕ) × (usage_percent (pos used) total ≡ pos p) × (p ≤ 1000)
unfolding usage_percent signed_ratio
usage_percent-le used zero h = (0, refl, omega arith)
usage_percent-le used (suc t) h =
    (nearest (1000 * used) (suc t), refl, nearest-le (1000 * used) t 1000 (omega arith))

pub sub_ℕ_le : (m n : ℕ) → n ≤ m → sub_ℕ m n ≡ pos (m - n)
sub_ℕ_le m n h = ground arith

-- Available and used memory make up the total, and the percentage is that of the used part.
pub record Fits (v : Svmem) : Type 0 where
  pub available_le : v.available ≤ v.total
  pub used_eq : v.used ≡ pos (v.total - v.available)
  pub percent_le : (p : ℕ) × (v.percent ≡ pos p) × (p ≤ 1000)

fits :
    (total free active inactive buffers cached shared slab : ℕ) (estimated : ℤ)
    → free ≤ total
    → Fits (record {
      total = total;
      available = clamp total free estimated;
      percent = usage_percent (sub_ℕ total (clamp total free estimated)) total;
      used = sub_ℕ total (clamp total free estimated);
      free = free;
      active = active;
      inactive = inactive;
      buffers = buffers;
      cached = cached;
      shared = shared;
      slab = slab;
    })
fits total free active inactive buffers cached shared slab estimated h =
    let le = clamp-le total free estimated h in
    let same = sub_ℕ_le total (clamp total free estimated) le in
    record {
      available_le = le;
      used_eq = same;
      percent_le =
          rw same (usage_percent-le (total - clamp total free estimated) total (omega arith));
    }

virtual_memory-AllOk :
    (pagesize : ℕ) (zoneinfo : Read (List Bytes)) (mems : Mems)
    → AllOk (λ v. v.free ≤ v.total → Fits v) (virtual_memory pagesize zoneinfo mems)
unfolding virtual_memory
virtual_memory-AllOk pagesize zoneinfo mems =
    let P : Svmem → Type 0 = λ v. v.free ≤ v.total → Fits v in
    any-AllOk P (or_key_error (get (b "MemTotal:") mems)) _ (λ total.
      any-AllOk P (or_key_error (get (b "MemFree:") mems)) _ (λ free.
        any-AllOk P
          (avail_of (get (b "MemAvailable:") mems) (calculate_avail_vmem pagesize zoneinfo mems)) _
          (λ estimated. fits total free _ _ _ _ _ _ estimated)))

-- If `virtual_memory` returns, and no more is free than there is, then what is available is at most the
-- total, what is used is the rest, and the percentage lies between 0 and 100: whatever else /proc/meminfo
-- holds or lacks, and however far off the estimate is.
pub virtual_memory-Fits :
    (pagesize : ℕ) (zoneinfo : Read (List Bytes)) (mems : Mems) (v : Svmem)
    → virtual_memory pagesize zoneinfo mems ≡ ok v
    → v.free ≤ v.total
    → Fits v
virtual_memory-Fits pagesize zoneinfo mems v e =
    ok-AllOk (λ (v : Svmem). v.free ≤ v.total → Fits v) (virtual_memory pagesize zoneinfo mems) v e
      (virtual_memory-AllOk pagesize zoneinfo mems)
