-- ===== src/Tests.antt =====
-- Runs of the models at concrete inputs.
pub mod Graphs
pub mod Blocks
pub mod Values
pub mod Triplets
pub mod Kernels
pub mod Flow
pub mod Barriers
pub mod Tails
