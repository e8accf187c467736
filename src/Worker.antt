-- ===== src/Worker.antt =====
-- The worker of src/worker.rs: the report that ends a job, and what it does to a machine and to the
-- catalog.
pub mod Completion
pub mod Site
pub mod Local
pub mod Rows
pub mod Success
pub mod Agreement
pub mod Tasks
pub mod Backup
pub mod Reconcile
pub mod Settled
