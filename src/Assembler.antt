-- ===== src/Assembler.antt =====
-- The native assembler (internal/assembler).
pub mod Text
pub mod Memory
pub mod Operand
pub mod Encode
pub mod Dispatch
pub mod Directives
pub mod State
pub mod Jumps
pub mod Sections
pub mod Lines
pub mod Target
pub mod Tables
pub mod Object
mod Runs
