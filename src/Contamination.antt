-- ===== src/Contamination.antt =====
-- src/nodelm/decontamination/contamination.py: the index that groups repositories by the content
-- that they share, and gives each group one split.
pub mod Tables
pub mod Ordering
pub mod Forest
pub mod Content
pub mod Linking
pub mod Benchmarks
pub mod Splits
pub mod Ingest
pub mod Index
pub mod TaskMetadata
pub mod Examples
