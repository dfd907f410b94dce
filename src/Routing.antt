-- ===== src/Routing.antt =====
-- The routing commands of src-tauri/src/application/proxy_routing.rs: their input, the mutation of the
-- state, and the transaction under a revision.
pub mod Types
pub mod Input
pub mod Mutation
pub mod Revision
pub mod Manager
pub mod Status
pub mod Selectors
