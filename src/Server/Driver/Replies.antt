-- ===== src/Server/Driver/Replies.antt =====
-- What the driver answers (crates/lockframe-server/src/driver.rs): error responses, and the
-- actions of the room manager turned into actions of the server.
use lockframe.Common.{
  ℕ, List, [], ◌∷◌, ◌++◌, Bool, Option, none, some, ◌==◌, if◌then◌else◌, Result, ok, err,
}
use lockframe.Proto.Errors.{ProtocolError}
use lockframe.Proto.Opcode.{Opcode, is_welcome}
use lockframe.Proto.Header.{opcode_enum, set_room_id}
use lockframe.Proto.Header
use lockframe.Proto.Frame.{Frame}
use lockframe.Proto.Payload.Types.{Text, ErrorPayload}
use lockframe.Proto.Payload.Coder.{Cbor}
use lockframe.Proto.Payload.{Payload, into_frame}
use lockframe.Proto.Payload.Failures.{
  frame_rejected, storage_error, invalid_payload, sequencer_error,
}
use lockframe.Proto.Payload.Failures
use lockframe.Server.Storage.{Storage, StorageError, conflict}
use lockframe.Server.Registry.{session_id_for_user, sessions_in_room}
use lockframe.Server.RoomManager.{RoomAction, RoomError, clear_room_sequencer}
use lockframe.Server.RoomManager
use lockframe.Server.Driver.Types.{
  ServerDriver, ServerAction, ServerError, ErrorText, LogLevel, LogMessage, send_to_session,
  broadcast, log_line, warn, room, protocol, of_storage, of_sequencer, of_protocol_text, of_server,
  of_invalid, number, sync_failed, encode_failed, welcome_not_connected, persist_failed,
  rejected_frame,
}
use lockframe.Server.Driver.Types

abbrev pub Actions : Type 0
Actions = List ServerAction

-- `session_ids.iter().position(|&id| id == sender)`, and the removal at that position: the first
-- occurrence goes.
unfoldable pub remove_first : ℕ → List ℕ → List ℕ
remove_first a [] = []
remove_first a (x ∷ xs) = let rest = remove_first a xs in if x == a then xs else x ∷ rest

-- `to_string` renders a text.
module _ (cbor : Cbor) (to_string : ErrorText → Text) where
  -- An error frame to a session and a log line about it, or a log line about the failure to
  -- encode the error.
  answered : ℕ → LogLevel → LogMessage → ℕ → Result ProtocolError Frame → Actions
  answered session_id level message now (ok frame) =
      send_to_session session_id frame ∷ log_line level message now ∷ []
  answered session_id level message now (err e) = log_line Types.error (encode_failed e) now ∷ []

  unfoldable pub reply_error : ℕ → ErrorPayload → LogLevel → LogMessage → ℕ → Actions
  unfolding answered
  reply_error session_id error level message now =
      answered session_id level message now
        (into_frame cbor (Payload.error error) (Header.new Opcode.error))

  -- The payload for an error of a room.
  room_error_payload : ℕ → RoomError → ErrorPayload
  room_error_payload room_id (RoomManager.room_not_found _) =
      Failures.room_not_found (to_string (Types.room_not_found room_id))
  room_error_payload room_id (RoomManager.storage e) = storage_error (to_string (of_storage e))
  room_error_payload room_id (RoomManager.sequencing e) =
      sequencer_error (to_string (of_sequencer e))
  room_error_payload room_id (RoomManager.room_already_exists id) =
      frame_rejected (to_string (number id))

  error_payload : ℕ → ServerError → ErrorPayload
  unfolding room_error_payload
  error_payload room_id (room e) = room_error_payload room_id e
  error_payload room_id (protocol msg) = invalid_payload (to_string (of_protocol_text msg))
  error_payload room_id e = frame_rejected (to_string (of_server e))

  in_room : ℕ → Result ProtocolError Frame → Result ProtocolError Frame
  in_room room_id (err e) = err e
  in_room room_id (ok frame) = ok (record frame { header = set_room_id frame.header room_id })

  unfoldable pub make_error_response : ℕ → ℕ → ServerError → ℕ → Actions
  unfolding answered error_payload in_room
  make_error_response session_id room_id error now =
      let payload = error_payload room_id error in
      answered session_id warn (sync_failed session_id payload.message) now
        (in_room room_id (into_frame cbor (Payload.error payload) (Header.new Opcode.error)))

  -- The arm of a rejected frame, which logs the rejection also when the error cannot be encoded.
  rejected : ℕ → LogMessage → ℕ → Result ProtocolError Frame → Actions
  rejected sender_id message at (ok frame) =
      send_to_session sender_id frame ∷ log_line warn message at ∷ []
  rejected sender_id message at (err e) = log_line warn message at ∷ []

  sync_answered : ℕ → ℕ → Result ProtocolError Frame → Actions
  sync_answered sender_id now (ok frame) = send_to_session sender_id frame ∷ []
  sync_answered sender_id now (err e) = log_line Types.error (encode_failed e) now ∷ []

  -- A Welcome goes to the session of its recipient alone.
  welcomed : ℕ → ℕ → Frame → ℕ → Option ℕ → Actions
  welcomed recipient_id room_id frame now (some session_id) = send_to_session session_id frame ∷ []
  welcomed recipient_id room_id frame now none =
      log_line warn (welcome_not_connected recipient_id room_id) now ∷ []

  module _ {S : Type 0} (st : Storage S) where
    unfoldable pub stored :
        ServerDriver S → ℕ → ℕ → S × Result StorageError (Unit {0}) → ServerDriver S × Actions
    stored d room_id now (s, ok _) = (record d { storage = s }, [])
    stored d room_id now (s, err (conflict expected got)) = (
      record d { storage = s; room_manager = (clear_room_sequencer d.room_manager room_id).0 },
      log_line Types.error (persist_failed (conflict expected got)) now ∷ [],
    )
    stored d room_id now (s, err e) =
        (record d { storage = s }, log_line Types.error (persist_failed e) now ∷ [])

    unfoldable pub recipients : ServerDriver S → ℕ → Bool → ℕ → List ℕ
    recipients d room_id exclude_sender sender =
        let session_ids = sessions_in_room d.registry room_id in
        if exclude_sender then remove_first sender session_ids else session_ids

    unfoldable pub process_room_action :
        ServerDriver S → RoomAction → ℕ → ℕ → ServerDriver S × Actions
    unfolding welcomed stored rejected sync_answered in_room recipients
    process_room_action d (RoomManager.broadcast room_id frame exclude_sender at) sender now =
        if is_welcome (opcode_enum frame.header)
        then (
          d,
          welcomed (Header.recipient_id frame.header) room_id frame now
              (session_id_for_user d.registry (Header.recipient_id frame.header)),
        )
        else (d, broadcast (recipients d room_id exclude_sender sender) frame ∷ [])
    process_room_action d (RoomManager.persist_frame room_id log_index frame at) sender now =
        stored d room_id now (st.store_frame d.storage room_id log_index frame)
    process_room_action d (RoomManager.reject sender_id reason at) sender now = (
      d,
      rejected sender_id (rejected_frame sender_id reason) at (
          into_frame cbor (Payload.error (frame_rejected (to_string (of_invalid reason))))
            (Header.new Opcode.error)),
    )
    process_room_action d (RoomManager.send_sync_response sender_id room_id frames has_more at)
          sender now =
        (
          d,
          sync_answered sender_id now (
              in_room room_id (
                into_frame cbor
                  (Payload.sync_response
                    (record { frames = frames; has_more = has_more; server_epoch = 0 }))
                  (Header.new Opcode.sync_response))),
        )

    unfoldable pub process_room_actions :
        ServerDriver S → List RoomAction → ℕ → ℕ → ServerDriver S × Actions
    process_room_actions d [] sender now = (d, [])
    process_room_actions d (action ∷ rest) sender now =
        let (d', first) = process_room_action d action sender now in
        let (d'', more) = process_room_actions d' rest sender now in (d'', first ++ more)
