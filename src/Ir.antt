-- ===== src/Ir.antt =====
-- The typed expressions of the intermediate representation: src/umcm/ir.
pub mod Sort
pub mod Conversion
pub mod Expression
pub mod Event
pub mod Trace
pub mod Codec
