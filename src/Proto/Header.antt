-- ===== src/Proto/Header.antt =====
-- crates/lockframe-proto/src/header.rs: the fixed 128-byte header. The fields are the byte arrays
-- of the packed struct, in its order; numbers are read and written in big-endian order. The
-- debug assertions on the opcode, which release builds drop, are not part of the model.
pub mod Layout
pub mod Signing
use lockframe.Common.{
  ℕ, ◌*◌, List, [], ◌∷◌, ◌++◌, Bool, Option, ltb, ◌==◌, not, if◌then◌else◌, Result, ok, err, length,
  take, drop, replicate, to_be_bytes, from_be_bytes,
}
use lockframe.Proto.Errors.{
  ProtocolError, frame_too_short, invalid_magic, unsupported_version, payload_too_large,
}
use lockframe.Proto.Opcode.{Opcode, to_u16, from_u16}

pub record FrameHeader : Type 0 where
  pub magic : List ℕ
  pub version : ℕ
  pub flags : ℕ
  pub opcode : List ℕ
  pub request_id : List ℕ
  pub payload_size : List ℕ
  pub room_id : List ℕ
  pub sender_id : List ℕ
  pub context_id : List ℕ
  pub hlc_timestamp : List ℕ
  pub epoch : List ℕ
  pub signature : List ℕ

abbrev pub size : ℕ
size = 128

abbrev pub magic_number : ℕ
magic_number = 0x4C4F4652

abbrev pub protocol_version : ℕ
protocol_version = 0x01

abbrev pub max_payload_size : ℕ
max_payload_size = 16 * 1024 * 1024

-- The first byte of a field of one byte.
abbrev pub byte : List ℕ → ℕ
byte [] = 0
byte (b ∷ bs) = b

-- The cast of `ref_from_prefix`: the fields one after the other, from the first byte on.
unfoldable pub ref_from_prefix : List ℕ → FrameHeader
ref_from_prefix bytes =
    let b4 = drop 4 bytes in
    let b5 = drop 1 b4 in
    let b6 = drop 1 b5 in
    let b8 = drop 2 b6 in
    let b12 = drop 4 b8 in
    let b16 = drop 4 b12 in
    let b32 = drop 16 b16 in
    let b40 = drop 8 b32 in
    let b48 = drop 8 b40 in
    let b56 = drop 8 b48 in
    let b64 = drop 8 b56 in
    record {
      magic = take 4 bytes;
      version = byte b4;
      flags = byte b5;
      opcode = take 2 b6;
      request_id = take 4 b8;
      payload_size = take 4 b12;
      room_id = take 16 b16;
      sender_id = take 8 b32;
      context_id = take 8 b40;
      hlc_timestamp = take 8 b48;
      epoch = take 8 b56;
      signature = take 64 b64;
    }

-- The checks that follow the cast in `from_bytes`.
unfoldable pub check_header : FrameHeader → Result ProtocolError FrameHeader
check_header header =
    let claimed = from_be_bytes header.payload_size in
    if not (from_be_bytes header.magic == magic_number)
    then err invalid_magic
    else if not (header.version == protocol_version)
    then err (unsupported_version header.version)
    else if ltb max_payload_size claimed
    then err (payload_too_large claimed max_payload_size)
    else ok header

unfoldable pub from_bytes : List ℕ → Result ProtocolError FrameHeader
from_bytes bytes =
    if ltb (length bytes) size
    then err (frame_too_short size (length bytes))
    else check_header (ref_from_prefix bytes)

unfoldable pub to_bytes : FrameHeader → List ℕ
to_bytes h =
    h.magic
    ++ (h.version
        ∷ (h.flags
            ∷ (h.opcode
                ++ (h.request_id
                    ++ (h.payload_size
                        ++ (h.room_id
                            ++ (h.sender_id
                                ++ (h.context_id
                                    ++ (h.hlc_timestamp ++ (h.epoch ++ h.signature))))))))))

-- `FrameHeader::new`: zero bytes but for the magic number, the version and the opcode.
unfoldable pub new : Opcode → FrameHeader
new opcode = record {
  magic = to_be_bytes 4 magic_number;
  version = protocol_version;
  flags = 0;
  opcode = to_be_bytes 2 (to_u16 opcode);
  request_id = replicate 4 0;
  payload_size = replicate 4 0;
  room_id = replicate 16 0;
  sender_id = replicate 8 0;
  context_id = replicate 8 0;
  hlc_timestamp = replicate 8 0;
  epoch = replicate 8 0;
  signature = replicate 64 0;
}

-- The accessors have the names of their fields: `room_id h` is `header.room_id()`.
unfoldable pub magic : FrameHeader → ℕ
magic h = from_be_bytes h.magic

unfoldable pub opcode : FrameHeader → ℕ
opcode h = from_be_bytes h.opcode

unfoldable pub opcode_enum : FrameHeader → Option Opcode
opcode_enum h = from_u16 (opcode h)

unfoldable pub request_id : FrameHeader → ℕ
request_id h = from_be_bytes h.request_id

unfoldable pub room_id : FrameHeader → ℕ
room_id h = from_be_bytes h.room_id

unfoldable pub sender_id : FrameHeader → ℕ
sender_id h = from_be_bytes h.sender_id

unfoldable pub log_index : FrameHeader → ℕ
log_index h = from_be_bytes h.context_id

unfoldable pub recipient_id : FrameHeader → ℕ
recipient_id h = from_be_bytes h.context_id

unfoldable pub hlc_timestamp : FrameHeader → ℕ
hlc_timestamp h = from_be_bytes h.hlc_timestamp

unfoldable pub epoch : FrameHeader → ℕ
epoch h = from_be_bytes h.epoch

unfoldable pub payload_size : FrameHeader → ℕ
payload_size h = from_be_bytes h.payload_size

-- Bytes 0 to 39 and 48 to 63.
unfoldable pub signing_data : FrameHeader → List ℕ
signing_data h = take 40 (to_bytes h) ++ take 16 (drop 48 (to_bytes h))

unfoldable pub set_room_id : FrameHeader → ℕ → FrameHeader
set_room_id h n = record h { room_id = to_be_bytes 16 n }

unfoldable pub set_log_index : FrameHeader → ℕ → FrameHeader
set_log_index h n = record h { context_id = to_be_bytes 8 n }

unfoldable pub set_recipient_id : FrameHeader → ℕ → FrameHeader
set_recipient_id h n = record h { context_id = to_be_bytes 8 n }

unfoldable pub set_sender_id : FrameHeader → ℕ → FrameHeader
set_sender_id h n = record h { sender_id = to_be_bytes 8 n }

unfoldable pub set_epoch : FrameHeader → ℕ → FrameHeader
set_epoch h n = record h { epoch = to_be_bytes 8 n }

unfoldable pub set_signature : FrameHeader → List ℕ → FrameHeader
set_signature h signature = record h { signature = signature }

unfoldable pub set_request_id : FrameHeader → ℕ → FrameHeader
set_request_id h n = record h { request_id = to_be_bytes 4 n }

-- A set of flags is its byte: `from_byte` and `to_byte` keep every bit.
unfoldable pub set_flags : FrameHeader → ℕ → FrameHeader
set_flags h byte = record h { flags = byte }

unfoldable pub set_hlc_timestamp : FrameHeader → ℕ → FrameHeader
set_hlc_timestamp h n = record h { hlc_timestamp = to_be_bytes 8 n }

unfoldable pub set_payload_size : FrameHeader → ℕ → FrameHeader
set_payload_size h n = record h { payload_size = to_be_bytes 4 n }
