-- ===== src/Reconcile.antt =====
-- pkg/sbproxy/reconcile
pub mod Settings
pub mod Urls
pub mod Job
pub mod Scheduler
pub mod Brokers
pub mod Visibilities
pub mod Resyncer
pub mod Reconciler
