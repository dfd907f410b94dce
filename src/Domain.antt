-- ===== src/Domain.antt =====
-- The configuration aggregate and its invariants: src-tauri/src/domain/state.rs.
pub mod Types
pub mod Options
pub mod Subscriptions
pub mod Filter
pub mod State
