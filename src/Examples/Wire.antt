-- ===== src/Examples/Wire.antt =====
-- Frames and headers of the protocol (crates/lockframe-proto).
use lockframe.Common.{
  ℕ, ◌≡◌, refl, ◌+◌, List, [], ◌∷◌, ◌++◌, some, ok, take, arith, to_be_bytes, replicate,
  from_be_bytes,
}
use lockframe.Proto.Opcode.{Opcode, from_u16, to_u16}
use lockframe.Proto.Header as Header
use lockframe.Proto.Header.{
  FrameHeader, size, max_payload_size, from_bytes, to_bytes, signing_data, set_log_index,
  set_room_id, set_recipient_id, check_header,
}
use lockframe.Proto.Header.Layout.{IsSized, IsValid}
use lockframe.Proto.Header.Signing.{signing_data-injective}
use lockframe.Proto.Frame as Frame
use lockframe.Proto.Frame.{Frame, encode, decode}
use lockframe.Proto.Frame.Wire.{IsWellFormed, decode-encode, encode-decode, new-IsWellFormed}

abbrev header : FrameHeader
header = set_room_id (Header.new Opcode.app_message) 7

abbrev pub frame : Frame
frame = Frame.new header (1 ∷ 2 ∷ 3 ∷ [])

header-IsSized : IsSized header
unfolding Header.new set_room_id to_be_bytes
header-IsSized = record {
  magic = refl;
  opcode = refl;
  request_id = refl;
  payload_size = refl;
  room_id = refl;
  sender_id = refl;
  context_id = refl;
  hlc_timestamp = refl;
  epoch = refl;
  signature = refl;
}

header-IsValid : IsValid header
unfolding Header.magic Header.payload_size Header.new set_room_id to_be_bytes from_be_bytes
header-IsValid = record { magic = refl; version = refl; payload_size = omega arith }

bytes_parse : from_bytes (to_bytes header) ≡ ok header
unfolding from_bytes to_bytes Header.new set_room_id to_be_bytes check_header Header.ref_from_prefix
    from_be_bytes
bytes_parse = refl

pub frame-IsWellFormed : IsWellFormed frame
frame-IsWellFormed =
    new-IsWellFormed header (1 ∷ 2 ∷ 3 ∷ []) header-IsSized header-IsValid.magic
      header-IsValid.version (omega arith)

frame_decodes : decode (to_bytes frame.header ++ (1 ∷ 2 ∷ 3 ∷ 9 ∷ [])) ≡ ok frame
unfolding decode Frame.read_payload Frame.new from_bytes to_bytes Header.new set_room_id to_be_bytes
    check_header Header.ref_from_prefix from_be_bytes Header.payload_size
frame_decodes = refl

decode-encode_example :
    (bytes : List ℕ) × (encode frame ≡ ok bytes) × (decode (bytes ++ 9 ∷ []) ≡ ok frame)
decode-encode_example = decode-encode frame (9 ∷ []) frame-IsWellFormed

encode-decode_example :
    IsWellFormed frame
    × (encode frame
        ≡ ok (
            take
              (size + Header.payload_size frame.header)
              (to_bytes frame.header ++ (1 ∷ 2 ∷ 3 ∷ 9 ∷ []))))
encode-decode_example =
    encode-decode (to_bytes frame.header ++ (1 ∷ 2 ∷ 3 ∷ 9 ∷ [])) frame frame_decodes

-- The same header with another context id.
abbrev indexed : FrameHeader
indexed = record header { context_id = replicate 8 5 }

indexed-IsSized : IsSized indexed
unfolding Header.new set_room_id to_be_bytes
indexed-IsSized = record {
  magic = refl;
  opcode = refl;
  request_id = refl;
  payload_size = refl;
  room_id = refl;
  sender_id = refl;
  context_id = refl;
  hlc_timestamp = refl;
  epoch = refl;
  signature = refl;
}

indexed_signs : signing_data header ≡ signing_data indexed
unfolding signing_data to_bytes Header.new set_room_id to_be_bytes
indexed_signs = refl

signing_data-injective_example :
    header ≡ record indexed { context_id = header.context_id; signature = header.signature }
signing_data-injective_example =
    signing_data-injective header indexed header-IsSized indexed-IsSized indexed_signs

welcome_code : from_u16 (to_u16 Opcode.welcome) ≡ some Opcode.welcome
unfolding from_u16 to_u16
welcome_code = refl
