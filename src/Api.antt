-- ===== src/Api.antt =====
-- The controller's HTTP surface (src/stashd/api/ and src/stashd/auth/), on requests whose headers
-- are ASCII.
pub mod Access
pub mod Failures
pub mod Transfers
pub mod Limits
pub mod Allocations
pub mod Running
pub mod Passes
pub mod Topology
pub mod Filesets
