-- ===== src/Graph.antt =====
-- Finite execution graphs: src/umcm/graph.
pub mod Relation
pub mod Cycle
pub mod Execution
pub mod Checker
pub mod Rvwmo
pub mod Builder
pub mod Model
pub mod Projection
pub mod Hints
pub mod Candidates
pub mod Enumeration
