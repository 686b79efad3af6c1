-- ===== src/Split.antt =====
-- src/nodelm/decontamination/split.py: the aliases of repositories, the split that is built in
-- memory, the reading of a manifest's events, and the table of reviewed splits.
pub mod Errors
pub mod Maps
pub mod Aliases
pub mod Memory
pub mod Authorization
pub mod Events
pub mod Evidence
pub mod Examples
