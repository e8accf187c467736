-- ===== src/Examples.antt =====
-- A small fleet, and the theorems of the library applied to it.
pub mod Fleet
pub mod People
pub mod Hosts
pub mod Workers
pub mod Previews
pub mod Queue
pub mod Operations
pub mod Lookups
