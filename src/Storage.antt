-- ===== src/Storage.antt =====
-- The snapshot store of the state, src-tauri/src/storage. The parts are child modules.
pub mod Json
pub mod Error
pub mod OldNode
pub mod Upgrade
pub mod Migration
pub mod Files
pub mod Codec
pub mod Store
