-- ===== src/Disk.antt =====
-- psutil/_psposix.py: `disk_usage`. Percentages are tenths.
pub mod Bounds
use psutil.Prelude.{ℕ, suc, ◌*◌, Bool, if◌then◌else◌}
use psutil.Prelude.Int.{ℤ, pos, negsuc, sub_ℕ, ◌+ℤ◌}
use psutil.Cpu.OneProcess.{signed_ratio}

-- `os.statvfs(path)`
pub record Statvfs : Type 0 where
  pub f_frsize : ℕ
  pub f_blocks : ℕ
  pub f_bfree : ℕ
  pub f_bavail : ℕ

-- `sdiskusage`
pub record DiskUsage : Type 0 where
  pub total : ℕ
  pub used : ℤ
  pub free : ℕ
  pub percent : ℤ

-- `usage_percent(used, total, round_=1)`, where the total may be negative too.
unfoldable pub percent_of : ℤ → ℤ → ℤ
unfolding signed_ratio
percent_of (pos n) total = signed_ratio (pos (1000 * n)) total
percent_of (negsuc n) total = signed_ratio (sub_ℕ 0 (1000 * suc n)) total

abbrev pub usage_of : ℕ → ℤ → ℕ → DiskUsage
usage_of total used avail_to_user = record {
  total = total;
  used = used;
  free = avail_to_user;
  percent = percent_of used (used +ℤ pos avail_to_user);
}

-- `used_on_macos` is `_psutil.disk_usage_used(path, used)`.
unfoldable pub disk_usage : Bool → (ℤ → ℤ) → Statvfs → DiskUsage
unfolding percent_of ◌+ℤ◌
disk_usage macos used_on_macos st =
    let total = st.f_blocks * st.f_frsize in
    let used = sub_ℕ total (st.f_bfree * st.f_frsize) in
    usage_of total (if macos then used_on_macos used else used) (st.f_bavail * st.f_frsize)
