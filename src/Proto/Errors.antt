-- ===== src/Proto/Errors.antt =====
-- crates/lockframe-proto/src/errors.rs: the errors of framing and of payload coding. Messages
-- that only carry the text of a CBOR failure have no argument here.
use lockframe.Common.{ℕ}

pub data ProtocolError : Type 0 where
  frame_too_short : ℕ → ℕ → ProtocolError
  invalid_magic : ProtocolError
  unsupported_version : ℕ → ProtocolError
  payload_too_large : ℕ → ℕ → ProtocolError
  frame_truncated : ℕ → ℕ → ProtocolError
  cbor_encode : ProtocolError
  cbor_decode : ProtocolError
  invalid_opcode : ℕ → ProtocolError
  payload_size_mismatch : ℕ → ℕ → ProtocolError
  invalid_flags : ℕ → ProtocolError
