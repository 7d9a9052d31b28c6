-- ===== src/Fzp.antt =====
-- The preprocessor: internal/fzp.
pub mod Tokens
pub mod Expr
pub mod Conditions
mod Runs
