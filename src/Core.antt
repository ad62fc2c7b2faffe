-- ===== src/Core.antt =====
-- crates/lockframe-core: the session state machine, group states and their validator.
pub mod Connection
pub mod GroupState
pub mod Validator
pub mod Mls
