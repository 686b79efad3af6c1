-- ===== src/Gates.antt =====
-- The gates that decide what may be used: licenses, gold exposure, the registry of candidates, patches,
-- and the report of a training run.
pub mod Status
pub mod License
pub mod Gold
pub mod Registry
pub mod Patches
pub mod Lifecycle
pub mod Examples
