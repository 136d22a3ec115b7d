-- ===== src/Solver.antt =====
-- The bounded solver: src/umcm/solver.
pub mod Value
pub mod Equality
pub mod Evaluator
pub mod Finite
pub mod Problem
pub mod State
