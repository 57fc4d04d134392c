-- ===== src/Disk/Bounds.antt =====
-- The numbers of `disk_usage` fit together.
use psutil.Prelude.{ℕ, zero, suc, ◌+◌, ◌-◌, ◌*◌, ◌≤◌, ◌≡◌, refl, false, arith, ap, sym, subst, ◌∙◌}
use native.Mathlib.Nat.{mul-le-mul_right}
use psutil.Prelude.Int.{ℤ, pos, sub_ℕ, ◌+ℤ◌}
use psutil.Cpu.{nearest}
use psutil.Cpu.Bounds.{nearest-le}
use psutil.Cpu.OneProcess.{signed_ratio}
use psutil.Disk.{Statvfs, DiskUsage, percent_of, usage_of, disk_usage}

percent_of-le : (u t : ℕ) → u ≤ t → (p : ℕ) × (percent_of (pos u) (pos t) ≡ pos p) × (p ≤ 1000)
unfolding percent_of signed_ratio
percent_of-le u zero h = (0, refl, omega arith)
percent_of-le u (suc t) h =
    (nearest (1000 * u) (suc t), refl, nearest-le (1000 * u) t 1000 (omega arith))

-- What fits: used and free are within the total, and the percentage is up to 100.0.
pub record IsWithin (d : DiskUsage) : Type 0 where
  pub used_bytes : ℕ
  pub used_eq : d.used ≡ pos used_bytes
  pub sum_le : used_bytes + d.free ≤ d.total
  pub tenths : ℕ
  pub percent_eq : d.percent ≡ pos tenths
  pub percent_le : tenths ≤ 1000

sub_ℕ_pos : (m n : ℕ) → n ≤ m → sub_ℕ m n ≡ pos (m - n)
sub_ℕ_pos m n h = ground arith

pos_add : (u f : ℕ) → pos u +ℤ pos f ≡ pos (u + f)
unfolding ◌+ℤ◌
pos_add u f = ground arith

usage_of-IsWithin :
    (total used free : ℕ) → used + free ≤ total → IsWithin (usage_of total (pos used) free)
usage_of-IsWithin total used free h =
    let (p, e, l) = percent_of-le used (used + free) (omega arith) in
    record {
      used_bytes = used;
      used_eq = refl;
      sum_le = h;
      tenths = p;
      percent_eq = ap (percent_of (pos used)) (pos_add used free) ∙ e;
      percent_le = l;
    }

-- Elsewhere than on macOS, where the blocks that a user can have are among the free ones, and these among all
-- blocks: disk_usage reports used and free sizes that are not negative and within the total, and a percentage
-- from 0 to 100.
pub disk_usage-IsWithin :
    (used_on_macos : ℤ → ℤ) (st : Statvfs)
    → st.f_bavail ≤ st.f_bfree
    → st.f_bfree ≤ st.f_blocks
    → IsWithin (disk_usage false used_on_macos st)
unfolding disk_usage
disk_usage-IsWithin used_on_macos st h k =
    let total = st.f_blocks * st.f_frsize in
    let root = st.f_bfree * st.f_frsize in
    let free = st.f_bavail * st.f_frsize in
    let free_le : free ≤ root = mul-le-mul_right st.f_frsize h in
    let root_le : root ≤ total = mul-le-mul_right st.f_frsize k in
    subst (λ u. IsWithin (usage_of total u free)) (sym (sub_ℕ_pos total root root_le))
      (usage_of-IsWithin total (total - root) free (omega arith))
