-- ===== src/Windows.antt =====
-- psutil/_pswindows.py.
pub mod Errors
pub mod Retry
pub mod Affinity
pub mod Waiting
pub mod Paths
pub mod Memory
pub mod Methods
pub mod Services
