-- ===== src/Daemon.antt =====
-- What runs on a storage daemon: the transfer engine, the task runner and the storage driver.
pub mod Output
pub mod Rsync
pub mod Driver
pub mod Runner
pub mod Requests
pub mod Starting
