-- ===== src/Domain.antt =====
-- The rules of src/stashd/domain/, one module to a file.
pub mod Errors
pub mod Filesets
pub mod Transfers
pub mod Floats
pub mod Allocation
pub mod Routes
pub mod Scheduling
pub mod Identity
pub mod Fairshare
pub mod Priority
pub mod References
pub mod Units
