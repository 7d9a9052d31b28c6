-- ===== src/Utils.antt =====
-- The utilities (internal/utils).
pub mod Deps
mod Runs
