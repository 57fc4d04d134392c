-- ===== src/Tests.antt =====
-- Runs of the definitions on concrete inputs, and the theorems at inputs that meet their hypotheses.
mod World
mod Identity
mod Signals
mod Wrapping
mod Listing
mod Trees
mod Parents
mod Info
mod Processors
mod Waits
mod Groups
mod Caches
mod ProcFiles
mod Parsers
mod Network
mod Getters
mod Pids
mod OpenFiles
mod Maps
mod WinCalls
mod Setters
mod Nics
mod Machine
