-- ===== src/Graph/Rvwmo.antt =====
-- The architectural RVWMO checker: src/umcm/graph/rvwmo.py.
pub mod Footprint
pub mod Validate
pub mod Ppo
pub mod Complete
pub mod Checks
pub mod Order
pub mod Rules
pub mod Preserved
pub mod Communication
pub mod Sources
