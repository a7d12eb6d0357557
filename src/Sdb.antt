-- ===== src/Sdb.antt =====
-- HW4, the debugger.
pub mod Types
pub mod Os
pub mod Exec
pub mod Scan
pub mod Memory
pub mod Breakpoints
pub mod Registers
pub mod Disasm
pub mod Run
pub mod Load
pub mod Vmmap
pub mod Commands
pub mod Main
pub mod Frames
pub mod Invariant
pub mod Overlay
