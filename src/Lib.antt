-- ===== src/Lib.antt =====
-- A verification library of psutil's Python core: the process objects of psutil/__init__.py, the table
-- behind process_iter(), the helpers of psutil/_common.py and psutil/_psposix.py, the parsers of /proc in
-- psutil/_pslinux.py, and the Windows module psutil/_pswindows.py.
--
-- The parts, and the files that model them:
--
--   Platform.antt        the operating system constants of psutil/_common.py
--   Process.antt         the class `Process` of psutil/__init__.py
--     Process/Defs       its attributes; the kernel as a record of answers at one moment
--     Process/Identity   `_init`, `_get_ident`, `create_time`, `_cmp_idents`, `__eq__`, `__hash__`
--     Process/Running    `is_running`, `_raise_if_pid_reused`
--     Process/Signals    `_send_signal`, `send_signal`, `suspend`, `resume`, `terminate`, `kill`,
--                        the setter of `nice`
--     Process/Setters    `nice`, `ionice`, `rlimit`, `cpu_affinity`
--     Process/Grouped    `memory_maps`
--     Process/Children   `children`
--     Process/Parents    `ppid`, `parent`, `parents`
--     Process/Getters    `name`, `exe`, `status`; `pid_exists`
--     Process/AsDict     `as_dict`
--   Wrap.antt            `_WrapNumbers` of psutil/_common.py
--   ProcessIter.antt     `pids`, `process_iter` and their module-level state
--   Cpu.antt             `_cpu_tot_time`, `_cpu_busy_time`, `_cpu_times_deltas`, `cpu_percent`,
--                        `cpu_times_percent`; Cpu/OneProcess `Process.cpu_percent`
--   PosixWait.antt       `wait_pid` of psutil/_psposix.py, and the ways in which it waits
--   Process/Waiting      `Process.wait`, `Popen.wait`
--   WaitProcs.antt       `wait_procs`
--   IoCounters.antt      `disk_io_counters`, `net_io_counters`
--   Oneshot.antt         `Process.oneshot` and `memoize_when_activated` of psutil/_common.py
--   Environ.antt         `parse_environ_block` of psutil/_common.py
--   Linux.antt           psutil/_pslinux.py:
--     Linux/Files        `wrap_exceptions`, `_is_zombie`, `_raise_if_zombie`, `_readlink`, `exe`
--     Linux/Stat         `_parse_stat_file`, `ppid_map`, `cpu_times`, `boot_time`, `create_time`, `threads`
--     Linux/Tree         `children` of psutil/__init__.py on what `ppid_map` returns
--     Linux/Cmdline      `cmdline`
--     Linux/Memory       `virtual_memory`, `calculate_avail_vmem`, `swap_memory`; `usage_percent` of
--                        psutil/_common.py
--     Linux/Addresses    `NetConnections.decode_address`
--     Linux/Sockets      `get_proc_inodes`, `get_all_inodes`, `process_inet`, `process_unix`
--     Linux/Connections  `NetConnections.retrieve`
--     Linux/Counters     `disk_io_counters`, `net_io_counters`
--     Linux/Pids         `pids`, `pid_exists`
--     Linux/Cpus         `_parse_cpulist`, `cpu_stats`, `cpu_affinity_set`, `ionice_set`
--     Linux/Footprint    `io_counters`, `_parse_smaps_rollup`, `memory_footprint`
--     Linux/Maps         `memory_maps`; `path_exists_strict` of psutil/_common.py
--     Linux/OpenFiles    `open_files`, `file_flags_to_mode`, and the end of `threads`
--   System.antt          `cpu_count`, `cpu_freq`, `memory_percent`, `sensors_temperatures`
--   Disk.antt            `disk_usage` of psutil/_psposix.py
--   Interfaces.antt      `net_if_addrs` of psutil/__init__.py
--   Windows.antt         psutil/_pswindows.py:
--     Windows/Errors     `is_permission_err`, `convert_oserror`, `wrap_exceptions`
--     Windows/Retry      `retry_error_partial_copy`
--     Windows/Waiting    `Process.wait`
--     Windows/Affinity   `cpu_affinity_get`, `cpu_affinity_set`
--     Windows/Paths      `convert_dos_path`, `exe`, `name`
--     Windows/Memory     `memory_info`, `virtual_memory`, `sensors_battery`
--     Windows/Methods    the other methods of `Process` that do more than ask the C extension
--     Windows/Services   `WindowsService`
--   Text.antt            the methods of Python's `bytes` and `str` that the parsers use
--   Prelude.antt         names shared by all, with results, dicts, sorting and integers
--   Tests.antt           runs on concrete inputs
--
-- How they interact: a `Process` is built from what the kernel says of a PID and is compared by PID and
-- creation time. `is_running` builds another object and compares; the checks before a signal call it;
-- it fills the set `_pids_reused`, which `process_iter` empties. `children` builds an object for each
-- candidate, and `process_iter` for each new PID, where it may call `as_dict`.
-- `io_counters` calls `run` of `_WrapNumbers`. `wait` of a process asks the platform module, which on
-- Linux calls `wait_pid`; `wait_procs` calls `wait` and `is_running`. `ppid_map` is what `children`
-- walks, `create_time` of Linux what `Ident.ctime` comes from, and the counters of Linux/Counters are
-- what `io_counters` adjusts and sums up; in the models of those callers they are parameters.
-- Linux/Tree puts `children` and `ppid_map` together. The setters of Process/Setters make the same check
-- as the signals. What Process/Grouped adds up is what Linux/Maps reads.
--
-- State is passed explicitly: a method takes a record and returns it beside its result (`Exec`). What
-- was written before a raise stays written. An exception is a value of `Error`: its class, and its PID
-- where a handler or a theorem needs it; messages are left out. A call that asks the kernel takes a
-- `Kernel`; a method that asks at several moments takes one for each, so that a race between a check and
-- an action is visible. No theorem assumes that two kernels agree unless it says so.
--
-- Times are whole numbers, of clock ticks (`Ident.ctime`) or of the unit that a file names; PIDs and
-- counters are natural numbers. A dict is an association list in insertion order, a set a list without
-- repetitions.
--
-- Bounds: the traversal of `children` takes fuel, the number of entries of the ppid map plus two; each
-- entry is pushed at most once, so that is enough, as is proved. The loops that wait take fuel too:
-- `poll` and `wait_loop` of PosixWait one for each look at the process, `rounds` of WaitProcs one for
-- each round; with a timeout the steps until the deadline are enough, as is proved. What the system
-- answers is a stream indexed by such steps. `environ_loop` of Environ takes one round for each byte
-- of the block and one more, and each round consumes a byte. `ancestors` of Process/Parents takes one
-- round for each call of `parent`: where parents have a lower rank, that rank is enough. `poll` of
-- Windows/Waiting takes one round for each look at the PID; the rounds until the deadline are enough,
-- as is proved. `pad` of Interfaces takes five rounds, and each adds one of the five separators that
-- end the loop. No other definition takes fuel.
--
-- A file of /proc is its bytes or its lines, with the error that opening it may raise (`Read`); text is
-- a list of bytes, ASCII where the source decodes it, and digits are read without Python's underscores
-- and signs. Of reading in text mode, which translates line ends, `cmdline` has the translation; the
-- other parsers take the lines or the text that was read. Times in /proc are whole clock ticks.
--
-- Not modelled: threads (locks are left out, calls are sequential), debug output and warnings, the
-- other platform modules and the C extension (parameters), most sensors, partitions, what Python's
-- regular expressions do (`_parse_smaps`), and the getters of the Linux and Windows modules that are
-- not listed above, systems without IPv6 in `process_inet`, the warnings about fields that
-- /proc/meminfo lacks, and what a consumer of `process_iter` does between two processes.
pub mod Prelude
pub mod Platform
pub mod Text
pub mod Environ
pub mod Linux
pub mod Process
pub mod Wrap
pub mod ProcessIter
pub mod Cpu
pub mod PosixWait
pub mod IoCounters
pub mod WaitProcs
pub mod Oneshot
pub mod System
pub mod Disk
pub mod Interfaces
pub mod Windows
mod Tests
