-- ===== src/Proto/Payload/Failures.antt =====
-- crates/lockframe-proto/src/payloads/mod.rs: the constructors of error payloads, on the text that
-- they carry.
use lockframe.Common.{ℕ, none}
use lockframe.Proto.Payload.Types.{
  Text, ErrorPayload, frame_rejected_code, room_not_found_code, storage_error_code,
  invalid_payload_code, mls_error_code, sequencer_error_code, keypackage_not_found_code,
}

abbrev with_code : ℕ → Text → ErrorPayload
with_code code message = record { code = code; message = message; retry_after = none }

unfoldable pub frame_rejected : Text → ErrorPayload
frame_rejected reason = with_code frame_rejected_code reason

-- `message` is `format!("room not found: {room_id:032x}")`.
unfoldable pub room_not_found : Text → ErrorPayload
room_not_found message = with_code room_not_found_code message

unfoldable pub storage_error : Text → ErrorPayload
storage_error msg = with_code storage_error_code msg

unfoldable pub invalid_payload : Text → ErrorPayload
invalid_payload msg = with_code invalid_payload_code msg

unfoldable pub mls_error : Text → ErrorPayload
mls_error msg = with_code mls_error_code msg

unfoldable pub sequencer_error : Text → ErrorPayload
sequencer_error msg = with_code sequencer_error_code msg

-- `message` is `format!("no KeyPackage for user {user_id}")`.
unfoldable pub keypackage_not_found : Text → ErrorPayload
keypackage_not_found message = with_code keypackage_not_found_code message
