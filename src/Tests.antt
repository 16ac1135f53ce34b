-- ===== src/Tests.antt =====
-- Tests: the data, and the theorems at concrete inputs.
mod Data
mod Blocks
mod Locks
mod Removals
mod Objects
mod Runs
mod Scrubs
mod Connections
mod Devices
mod Policies
