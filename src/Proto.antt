-- ===== src/Proto.antt =====
-- crates/lockframe-proto: the wire format.
pub mod Opcode
pub mod Errors
pub mod Header
pub mod Frame
pub mod Payload
