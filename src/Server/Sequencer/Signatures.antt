-- ===== src/Server/Sequencer/Signatures.antt =====
-- The sequencer keeps the senders' signatures valid (`rebuild_frame_with_index` in
-- crates/lockframe-server/src/sequencer.rs against crates/lockframe-core/src/mls/validator.rs).
use lockframe.Common.{ℕ, ◌≡◌, refl, List, length, length-to_be_bytes}
use lockframe.Proto.Header as Header
use lockframe.Proto.Header.{FrameHeader, signing_data, set_log_index}
use lockframe.Proto.Header.Layout.{IsSized}
use lockframe.Proto.Header.Signing.{signing_data-set_log_index}
use lockframe.Proto.Frame as Frame
use lockframe.Proto.Frame.{Frame}
use lockframe.Core.GroupState.{MlsGroupState}
use lockframe.Core.Validator.{Ed25519, validate_frame}
use lockframe.Core.Validator.Acceptance.{Agree, validate_frame-Agree}
use lockframe.Server.Sequencer.{rebuild_frame_with_index}

new-IsSized :
    (h : FrameHeader) (payload : List ℕ) → IsSized h → IsSized (Frame.new h payload).header
unfolding Frame.new
new-IsSized h payload w = record {
  magic = w.magic;
  opcode = w.opcode;
  request_id = w.request_id;
  payload_size = length-to_be_bytes 4 (length payload);
  room_id = w.room_id;
  sender_id = w.sender_id;
  context_id = w.context_id;
  hlc_timestamp = w.hlc_timestamp;
  epoch = w.epoch;
  signature = w.signature;
}

rebuild-Agree :
    (h : FrameHeader) (payload : List ℕ) (n : ℕ)
    → IsSized h
    → Agree (rebuild_frame_with_index (Frame.new h payload) n) (Frame.new h payload)
unfolding rebuild_frame_with_index Frame.new set_log_index Header.epoch Header.sender_id
rebuild-Agree h payload n w = record {
  epoch = refl;
  sender_id = refl;
  signature = refl;
  signed = signing_data-set_log_index (Frame.new h payload).header n (new-IsSized h payload w);
}

-- Assigning a log index does not change what the validator says of a frame: a frame that
-- `Frame::new` made of a header is accepted or rejected, for the same reason, with any index that
-- the sequencer gives it.
pub validate_frame-rebuild :
    (ed : Ed25519) (h : FrameHeader) (payload : List ℕ) (n epoch : ℕ) (state : MlsGroupState)
    → IsSized h
    → validate_frame ed (rebuild_frame_with_index (Frame.new h payload) n) epoch state
      ≡ validate_frame ed (Frame.new h payload) epoch state
validate_frame-rebuild ed h payload n epoch state w =
    validate_frame-Agree ed (rebuild_frame_with_index (Frame.new h payload) n) (Frame.new h payload)
      epoch state (rebuild-Agree h payload n w)
