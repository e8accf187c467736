-- ===== src/Api.antt =====
-- The HTTP handlers of src/api.rs, with the checks of tokens of src/db.rs.
pub mod Tokens
pub mod Worker
pub mod Public
pub mod Requests
pub mod Creation
pub mod JobRequests
pub mod Reports
pub mod Completion
pub mod Elsewhere
pub mod Isolation
