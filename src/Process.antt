-- ===== src/Process.antt =====
-- The `Process` class of psutil/__init__.py.
pub mod Defs
pub mod Identity
pub mod Running
pub mod Signals
pub mod Setters
pub mod Grouped
pub mod Children
pub mod Parents
pub mod Getters
pub mod AsDict
pub mod Waiting
