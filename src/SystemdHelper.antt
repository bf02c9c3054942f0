-- ===== src/SystemdHelper.antt =====
-- internal/systemdhelper: the heartbeat monitor, the helper's service, and how the two run side by side.
pub mod Monitor
pub mod Inspect
pub mod Runner
pub mod Service
pub mod Watchdog
