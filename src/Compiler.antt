-- ===== src/Compiler.antt =====
-- The compiler of src-tauri/src/singbox/compiler.rs, from a runtime intent to the configuration of the
-- core.
pub mod Document
pub mod Checks
pub mod Node
pub mod NodeCheck
pub mod Validate
pub mod Managed
pub mod Compile
pub mod Traffic
pub mod Finalize
