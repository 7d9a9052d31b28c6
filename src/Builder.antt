-- ===== src/Builder.antt =====
-- internal/builder: the order in which sources are built.
pub mod Graph
pub mod Remap
pub mod Dag
mod Runs
