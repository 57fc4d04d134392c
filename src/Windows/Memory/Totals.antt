-- ===== src/Windows/Memory/Totals.antt =====
-- How the sizes of `virtual_memory` add up.
use psutil.Prelude.{ℕ, ◌≡◌, ◌≤◌, ◌*◌, ◌-◌, ap, ◌∙◌, arith}
use native.Mathlib.Nat.{mul-le-mul_right}
use psutil.Linux.Memory.{usage_percent}
use psutil.Linux.Memory.Bounds.{usage_percent-le, sub_ℕ_le}
use psutil.Prelude.Int.{pos, ◌+ℤ◌, sub_ℕ-add}
use psutil.Windows.Memory.{PerformanceInfo, virtual_memory}

-- If no more pages are available than there are, the memory used and the memory available of
-- virtual_memory on Windows add up to the total, and the percentage is that of a number up to 100.0.
pub virtual_memory_adds :
    (info : PerformanceInfo)
    → info.physical_available ≤ info.physical_total
    → ((virtual_memory info).used +ℤ pos ((virtual_memory info).avail)
        ≡ pos ((virtual_memory info).total))
      × ((p : ℕ) × ((virtual_memory info).percent ≡ pos p) × (p ≤ 1000))
unfolding virtual_memory
virtual_memory_adds info h =
    let total = info.physical_total * info.page_size in
    let avail = info.physical_available * info.page_size in
    let fits : avail ≤ total = mul-le-mul_right info.page_size h in
    let (p, e, l) = usage_percent-le (total - avail) total (omega arith) in
    (sub_ℕ-add total avail, (p, ap (λ n. usage_percent n total) (sub_ℕ_le total avail fits) ∙ e, l))
