-- ===== src/Harness.antt =====
-- src/nodelm/harness: command requests and the policy that makes them.
pub mod Command
pub mod Policy
pub mod Examples
pub mod Arguments
