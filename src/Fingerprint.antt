-- ===== src/Fingerprint.antt =====
-- src/nodelm/decontamination/fingerprints.py: the normal form of texts, exact fingerprints and
-- near duplicates.
pub mod Normalize
pub mod Matcher
pub mod Near
pub mod Repository
pub mod Examples
