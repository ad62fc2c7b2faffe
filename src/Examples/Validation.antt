-- ===== src/Examples/Validation.antt =====
-- Frames against a group state (crates/lockframe-core/src/mls/validator.rs), with a signature that
-- is the signed bytes themselves.
use lockframe.Common.{
  ◌≡◌, ◌↔◌, refl, [], ◌∷◌, true, some, to_be_bytes, from_be_bytes, contains, lookup,
}
use lockframe.Proto.Opcode.{Opcode}
use lockframe.Proto.Header as Header
use lockframe.Proto.Header.{FrameHeader, set_sender_id, set_epoch}
use lockframe.Proto.Header.Layout.{IsSized}
use lockframe.Proto.Frame as Frame
use lockframe.Proto.Frame.{Frame}
use lockframe.Core.GroupState.{MlsGroupState, is_member, member_key}
use lockframe.Core.Validator.{Ed25519, accept, validate_frame, validate_signature}
use lockframe.Core.Validator.Acceptance.{IsSigned, validate_frame-accept_iff}
use lockframe.Server.Sequencer.{rebuild_frame_with_index}
use lockframe.Server.Sequencer.Signatures.{validate_frame-rebuild}

-- Everything verifies.
abbrev pub ed : Ed25519
ed = record {
  key_from_bytes = λ bytes. some bytes;
  signature_from_slice = λ bytes. some bytes;
  verify = λ key message signature. true;
}

abbrev state : MlsGroupState
state = record {
  room_id = 7;
  epoch = 3;
  tree_hash = [];
  members = 100 ∷ 200 ∷ [];
  member_keys = (100, 1 ∷ []) ∷ [];
}

abbrev header : FrameHeader
header = set_epoch (set_sender_id (Header.new Opcode.app_message) 100) 3

header-IsSized : IsSized header
unfolding Header.new set_sender_id set_epoch to_be_bytes
header-IsSized = record {
  magic = refl;
  opcode = refl;
  request_id = refl;
  payload_size = refl;
  room_id = refl;
  sender_id = refl;
  context_id = refl;
  hlc_timestamp = refl;
  epoch = refl;
  signature = refl;
}

abbrev frame : Frame
frame = Frame.new header (1 ∷ 2 ∷ [])

validate_frame-accept_iff_example : (validate_frame ed frame 3 state ≡ accept) ↔ (
    (Header.epoch frame.header ≡ 3)
    × (is_member state (Header.sender_id frame.header) ≡ true)
    × IsSigned ed frame state)
validate_frame-accept_iff_example = validate_frame-accept_iff ed frame 3 state

validate_frame-rebuild_example :
    validate_frame ed (rebuild_frame_with_index frame 12) 3 state ≡ validate_frame ed frame 3 state
validate_frame-rebuild_example =
    validate_frame-rebuild ed header (1 ∷ 2 ∷ []) 12 3 state header-IsSized

-- The frame is accepted.
frame_accepted : validate_frame ed frame 3 state ≡ accept
unfolding validate_frame Header.epoch from_be_bytes Frame.new set_epoch to_be_bytes is_member
    contains Header.sender_id set_sender_id validate_signature member_key lookup
frame_accepted = refl
