-- ===== src/Linux.antt =====
-- psutil/_pslinux.py: what is read from /proc and /sys, and how it is parsed. Files are parameters:
-- their bytes, their lines or the error that opening them raises.
pub mod Footprint
pub mod Tree
pub mod Files
pub mod Stat
pub mod Cmdline
pub mod Memory
pub mod Addresses
pub mod Sockets
pub mod Connections
pub mod Counters
pub mod Cpus
pub mod OpenFiles
pub mod Pids
pub mod Maps
