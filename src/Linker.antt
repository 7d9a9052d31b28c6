-- ===== src/Linker.antt =====
-- The linker's own image writer: internal/linker/flat_layout.go.
pub mod Layout
mod Runs
