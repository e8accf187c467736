-- ===== src/Machines.antt =====
-- The virtual machines of src/runtime.rs: their addresses, their status and their operations.
pub mod Addresses
pub mod Vm
pub mod Lifecycle
pub mod Outcomes
pub mod Suspension
pub mod Ways
