-- ===== src/Tests.antt =====
-- A small machine on which the programs run, and the theorems at concrete inputs.
pub mod Machine
pub mod Debugger
mod Commands
mod Listing
mod Library
mod Traced
