-- ===== src/Services.antt =====
-- The controller's services (src/stashd/services/) and its scheduler.
pub mod Accounting
pub mod Keeping
pub mod Releases
pub mod Events
pub mod Dispatching
pub mod Cancelling
pub mod Admitting
pub mod Filesets
pub mod Warming
pub mod Flushing
pub mod Limiting
pub mod Scheduler
pub mod Reconciling
pub mod Retention
pub mod Reports
pub mod Usage
pub mod Unattended
pub mod Lineage
pub mod Registering
pub mod Listing
