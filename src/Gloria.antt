-- ===== src/Gloria.antt =====
-- The Gloria language: internal/gloria.
pub mod Token
pub mod Lexer
pub mod Code
pub mod Action
pub mod Compile
pub mod Link
mod Runs
