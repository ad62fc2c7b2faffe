-- ===== src/Server/Driver/Requests.antt =====
-- The requests that the driver serves itself (crates/lockframe-server/src/driver.rs): sync, key
-- packages and group infos.
pub mod Effects
pub mod Steadiness
use lockframe.Common.{ℕ, List, [], ◌∷◌, Option, none, some, Result, ok, err, ◌>>=◌, map_err}
use lockframe.Proto.Errors.{ProtocolError}
use lockframe.Proto.Opcode.{Opcode}
use lockframe.Proto.Header
use lockframe.Proto.Frame.{Frame}
use lockframe.Proto.Payload.Types.{Text, SyncRequest}
use lockframe.Proto.Payload.Coder.{Cbor}
use lockframe.Proto.Payload.{Payload, into_frame, from_frame}
use lockframe.Proto.Payload.Failures.{frame_rejected, invalid_payload, keypackage_not_found}
use lockframe.Proto.Payload.Failures
use lockframe.Server.Storage.{Storage, StorageError}
use lockframe.Server.Registry.{SessionInfo, sessions}
use lockframe.Server.RoomManager.{RoomAction, RoomError, handle_sync_request}
use lockframe.Server.KeyPackages.{
  KeyPackageRegistry, KeyPackageEntry, StoreResult, evicted, entry, store, take,
}
use lockframe.Server.Driver.Types.{
  ServerDriver, ServerAction, ServerError, ErrorText, LogLevel, LogMessage, Request,
  send_to_session, log_line, debug, info, warn, error, room, protocol, of_protocol,
  expected_sync_request, session_not_authenticated, unknown_session, expected_payload,
  failed_to_decode, room_not_found, key_package_not_found, request_from_unauthenticated,
  request_from_unknown, unexpected_payload, undecodable_payload, encode_failed, published,
  evicted_an_entry, key_package_fetched, no_key_package, no_group_info, group_info_stored,
  group_info_fetched, group_info_not_stored, group_info_not_loaded,
}
use lockframe.Server.Driver.Types
use lockframe.Server.Driver.Replies.{Actions, reply_error, make_error_response, process_room_action}

module _ (cbor : Cbor) (to_string : ErrorText → Text) where
  -- A typed reply and a log line about it, or a log line about the failure to encode it.
  responded : ℕ → LogMessage → ℕ → Result ProtocolError Frame → Actions
  responded session_id message now (ok frame) =
      send_to_session session_id frame ∷ log_line debug message now ∷ []
  responded session_id message now (err e) = log_line error (encode_failed e) now ∷ []

  refuse_payload : Request → ℕ → ℕ → Actions
  refuse_payload request session_id now =
      reply_error cbor to_string session_id (invalid_payload (to_string (expected_payload request)))
        warn (unexpected_payload request session_id) now

  refuse_undecodable : Request → ℕ → ProtocolError → ℕ → Actions
  refuse_undecodable request session_id e now =
      reply_error cbor to_string session_id
        (invalid_payload (to_string (failed_to_decode request e))) warn
        (undecodable_payload request session_id e) now

  fetched : ℕ → ℕ → ℕ → Option KeyPackageEntry → Actions
  unfolding responded
  fetched session_id user_id now (some e) = responded session_id (key_package_fetched user_id) now (
      into_frame cbor
        (Payload.key_package_fetch (record {
          user_id = user_id;
          key_package_bytes = e.key_package_bytes;
          hash_ref = e.hash_ref;
        }))
        (Header.new Opcode.key_package_fetch))
  fetched session_id user_id now none =
      reply_error cbor to_string session_id
        (keypackage_not_found (to_string (key_package_not_found user_id))) debug
        (no_key_package user_id session_id) now

  module _ {S : Type 0} (st : Storage S) where
    sync_range : Payload → Result ServerError SyncRequest
    sync_range (Payload.sync_request request) = ok request
    sync_range _ = err (protocol expected_sync_request)

    sync_result :
        ServerDriver S → ℕ → ℕ → ℕ → Result ServerError RoomAction → ServerDriver S × Actions
    sync_result d session_id room_id now (ok action) =
        process_room_action cbor to_string st d action session_id now
    sync_result d session_id room_id now (err e) =
        (d, make_error_response cbor to_string session_id room_id e now)

    -- The panic of the room manager stays one.
    sync_looked_up :
        ServerDriver S
        → ℕ
        → ℕ
        → ℕ
        → Option (Result RoomError RoomAction)
        → Option (ServerDriver S × Actions)
    unfolding sync_result
    sync_looked_up d session_id room_id now none = none
    sync_looked_up d session_id room_id now (some result) =
        some (sync_result d session_id room_id now (map_err room result))

    sync_requested :
        ServerDriver S
        → ℕ
        → ℕ
        → ℕ
        → Result ServerError SyncRequest
        → Option (ServerDriver S × Actions)
    unfolding sync_result sync_looked_up
    sync_requested d session_id room_id now (err e) =
        some (sync_result d session_id room_id now (err e))
    sync_requested d session_id room_id now (ok request) = sync_looked_up d session_id room_id now (
        handle_sync_request st d.room_manager room_id session_id request.from_log_index
          request.limit now d.storage)

    unfoldable pub handle_sync : ServerDriver S → ℕ → Frame → ℕ → Option (ServerDriver S × Actions)
    unfolding sync_range sync_requested
    handle_sync d session_id frame now =
        sync_requested d session_id (Header.room_id frame.header) now
          (map_err (λ e. protocol (of_protocol e)) (from_frame cbor frame) >>= sync_range)

  module _ {S : Type 0} where
    stored_package :
        ServerDriver S
        → ℕ
        → ℕ
        → Option (KeyPackageRegistry × StoreResult)
        → Option (ServerDriver S × Actions)
    stored_package d user_id now none = none
    stored_package d user_id now (some (packages, evicted)) = some (
      record d { key_package_registry = packages },
      log_line info (published user_id) now ∷ log_line debug (evicted_an_entry user_id) now ∷ [],
    )
    stored_package d user_id now (some (packages, _)) =
        some
          (record d { key_package_registry = packages }, log_line info (published user_id) now ∷ [])

    publish :
        ServerDriver S
        → ℕ
        → ℕ
        → ℕ
        → Result ProtocolError Payload
        → Option (ServerDriver S × Actions)
    unfolding stored_package refuse_payload refuse_undecodable
    publish d session_id user_id now (ok (Payload.key_package_publish request)) =
        stored_package d user_id now
          (store d.key_package_registry user_id (entry request.key_package_bytes request.hash_ref))
    publish d session_id user_id now (ok _) =
        some (d, refuse_payload Types.key_package_publish session_id now)
    publish d session_id user_id now (err e) =
        some (d, refuse_undecodable Types.key_package_publish session_id e now)

    publish_as :
        ServerDriver S → ℕ → Frame → ℕ → Option SessionInfo → Option (ServerDriver S × Actions)
    unfolding publish
    publish_as d session_id frame now none = some (
      d,
      reply_error cbor to_string session_id (frame_rejected (to_string unknown_session)) warn
          (request_from_unknown session_id) now,
    )
    publish_as d session_id frame now (some known) = elim known.user_id [
      | none ↦ some (
        d,
        reply_error cbor to_string session_id (frame_rejected (to_string session_not_authenticated))
            warn (request_from_unauthenticated session_id) now,
      )
      | some user_id ↦ publish d session_id user_id now (from_frame cbor frame)
    ]

    -- `none` is the panic of the registry's counter.
    unfoldable pub handle_key_package_publish :
        ServerDriver S → ℕ → Frame → ℕ → Option (ServerDriver S × Actions)
    unfolding publish_as
    handle_key_package_publish d session_id frame now =
        publish_as d session_id frame now (sessions d.registry session_id)

    fetch : ServerDriver S → ℕ → ℕ → Result ProtocolError Payload → ServerDriver S × Actions
    unfolding fetched refuse_payload refuse_undecodable
    fetch d session_id now (ok (Payload.key_package_fetch request)) =
        let (packages, found) = take d.key_package_registry request.user_id in
        (record d { key_package_registry = packages }, fetched session_id request.user_id now found)
    fetch d session_id now (ok _) = (d, refuse_payload Types.key_package_fetch session_id now)
    fetch d session_id now (err e) =
        (d, refuse_undecodable Types.key_package_fetch session_id e now)

    unfoldable pub handle_key_package_fetch :
        ServerDriver S → ℕ → Frame → ℕ → ServerDriver S × Actions
    unfolding fetch
    handle_key_package_fetch d session_id frame now = fetch d session_id now (from_frame cbor frame)

  module _ {S : Type 0} (st : Storage S) where
    group_info_written : ℕ → ℕ → ℕ → Result StorageError (Unit {0}) → Actions
    group_info_written room_id epoch now (ok _) =
        log_line debug (group_info_stored room_id epoch) now ∷ []
    group_info_written room_id epoch now (err e) =
        log_line error (group_info_not_stored room_id e) now ∷ []

    publish_group_info :
        ServerDriver S → ℕ → ℕ → Result ProtocolError Payload → ServerDriver S × Actions
    unfolding group_info_written
    publish_group_info d session_id now (ok (Payload.group_info given)) =
        let (s, result) =
          st.store_group_info d.storage given.room_id given.epoch given.group_info_bytes in
        (record d { storage = s }, group_info_written given.room_id given.epoch now result)
    publish_group_info d session_id now (ok _) =
        (d, log_line warn (unexpected_payload Types.group_info session_id) now ∷ [])
    publish_group_info d session_id now (err e) =
        (d, log_line warn (undecodable_payload Types.group_info session_id e) now ∷ [])

    unfoldable pub handle_group_info_publish :
        ServerDriver S → ℕ → Frame → ℕ → ServerDriver S × Actions
    unfolding publish_group_info
    handle_group_info_publish d session_id frame now =
        publish_group_info d session_id now (from_frame cbor frame)

    group_info_loaded : ℕ → ℕ → ℕ → Result StorageError (Option (ℕ × List ℕ)) → Actions
    unfolding responded
    group_info_loaded session_id room_id now (ok (some (epoch, bytes))) =
        responded session_id (group_info_fetched room_id epoch) now (
          into_frame cbor
            (Payload.group_info
              (record { room_id = room_id; epoch = epoch; group_info_bytes = bytes }))
            (Header.new Opcode.group_info))
    group_info_loaded session_id room_id now (ok none) =
        reply_error cbor to_string session_id
          (Failures.room_not_found (to_string (room_not_found room_id))) debug
          (no_group_info room_id session_id) now
    group_info_loaded session_id room_id now (err e) =
        log_line error (group_info_not_loaded room_id e) now ∷ []

    request_group_info : ServerDriver S → ℕ → ℕ → Result ProtocolError Payload → Actions
    unfolding group_info_loaded refuse_payload refuse_undecodable
    request_group_info d session_id now (ok (Payload.group_info_request request)) =
        group_info_loaded session_id request.room_id now
          (st.load_group_info d.storage request.room_id)
    request_group_info d session_id now (ok _) =
        refuse_payload Types.group_info_request session_id now
    request_group_info d session_id now (err e) =
        refuse_undecodable Types.group_info_request session_id e now

    unfoldable pub handle_group_info_request : ServerDriver S → ℕ → Frame → ℕ → Actions
    unfolding request_group_info
    handle_group_info_request d session_id frame now =
        request_group_info d session_id now (from_frame cbor frame)
