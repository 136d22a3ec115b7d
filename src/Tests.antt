-- ===== src/Tests.antt =====
-- Runs of the model on small inputs, and the theorems applied to them.
mod GraphTests
mod SolverTests
mod RvwmoTests
mod TraceTests
mod OrderTests
mod CandidateTests
mod CodecTests
mod StateTests
