-- ===== src/Provenance.antt =====
-- The provenance of samples: what of the traces and the tasks is admitted.
pub mod Values
pub mod Json
pub mod GoldFree
pub mod Normalize
pub mod Sample
pub mod Pipeline
pub mod TaskIndex
pub mod Lineage
pub mod Tasks
pub mod Trace
pub mod Examples
pub mod TaskRecord
