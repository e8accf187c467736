-- ===== src/Accounts.antt =====
-- The accounts of src/auth.rs: users, invites and sessions.
pub mod Texts
pub mod Sessions
pub mod Invites
pub mod Signup
pub mod Owned
pub mod Consistent
pub mod Counts
pub mod Reach
pub mod Paths
pub mod Admission
pub mod Entry
pub mod Others
pub mod Removal
pub mod Life
pub mod Joining
pub mod Identity
pub mod Gone
pub mod Remembered
