-- ===== src/Client/Messages.antt =====
-- Application messages of a client (crates/lockframe-client/src/client.rs), in both directions.
pub mod Delivery
use lockframe.Common.{
  ℕ, ◌^◌, List, [], ◌∷◌, Bool, not, Option, none, some, ltb, leb, ◌==◌, if◌then◌else◌, Result, ok,
  err, ◌>>=◌, map_err, length, lookup, to_be_bytes,
}
use lockframe.Proto.Opcode.{Opcode}
use lockframe.Proto.Header.{FrameHeader, set_room_id, set_sender_id, set_epoch, set_payload_size}
use lockframe.Proto.Header
use lockframe.Proto.Frame.{Frame}
use lockframe.Proto.Frame
use lockframe.Proto.Payload.Types.{EncryptedMessage}
use lockframe.Proto.Payload.Coder.{Cbor}
use lockframe.Core.Validator.{Ed25519}
use lockframe.Core.Mls.{OpenMls, MlsGroup, MlsError}
use lockframe.Core.Mls.Membership.{
  epoch, sign_frame_header, export_validation_state, validate_frame, member_id_by_leaf_index,
}
use lockframe.Crypto.Errors.{SenderKeyError}
use lockframe.Crypto.Ratchet.{Key}
use lockframe.Crypto.Encryption.{Aead}
use lockframe.Crypto.Encryption
use lockframe.Client.SenderKeys.{SenderKeyStore, encrypt, decrypt}
use lockframe.Client.Types.{
  Client, ClientError, ClientAction, Actions, Outcome, RoomState, room_not_found, sender_key,
  invalid_frame, unknown_sender_index, undecodable, sender_id_mismatch, payload_too_large, send,
  deliver_message, request_sync, log_line, epoch_differs,
}
use lockframe.Client.Types
use lockframe.Client.Rooms.{with_room}

unfoldable pub crypto_to_proto_encrypted : Encryption.EncryptedMessage → EncryptedMessage
crypto_to_proto_encrypted e = record {
  epoch = e.epoch;
  sender_index = e.sender_index;
  generation = e.generation;
  nonce = e.nonce;
  ciphertext = e.ciphertext;
  push_keys = none;
}

unfoldable pub proto_to_crypto_encrypted : EncryptedMessage → Encryption.EncryptedMessage
proto_to_crypto_encrypted e = record {
  epoch = e.epoch;
  sender_index = e.sender_index;
  generation = e.generation;
  nonce = e.nonce;
  ciphertext = e.ciphertext;
}

module _ {G P : Type 0} (mls : OpenMls G P) (mac : Key → List ℕ → Key) (aead : Aead)
    (cbor : Cbor) where
  -- The frame of an encrypted message: its header is signed before the payload joins it.
  unfoldable pub message_frame : Client G P → ℕ → RoomState G → List ℕ → Frame
  message_frame c room_id room payload =
      let header =
        set_payload_size
          (set_epoch
            (set_sender_id (set_room_id (Header.new Opcode.app_message) room_id) c.sender_id)
            (epoch mls room.mls_group))
          (length payload) in
      Frame.new (sign_frame_header mls room.mls_group header) payload

  sent_as : Client G P → ℕ → RoomState G → Option (List ℕ) → Option (Outcome G P)
  sent_as c room_id room none = none
  sent_as c room_id room (some payload) = some (
    with_room c room_id room,
    if ltb (length payload) (2 ^ 32)
        then ok (send (message_frame c room_id room payload) ∷ [])
        else err (invalid_frame payload_too_large),
  )

  encrypted_as :
      Client G P
      → ℕ
      → RoomState G
      → SenderKeyStore × Result SenderKeyError Encryption.EncryptedMessage
      → Option (Outcome G P)
  unfolding sent_as
  encrypted_as c room_id room (keys, err e) =
      some (with_room c room_id (record room { sender_keys = keys }), err (sender_key e))
  encrypted_as c room_id room (keys, ok e) =
      sent_as c room_id (record room { sender_keys = keys })
        (cbor.app_message.into_writer (crypto_to_proto_encrypted e))

  -- `none` is the panic of the coder, which is expected not to fail.
  unfoldable pub handle_send_message : Client G P → ℕ → List ℕ → List ℕ → Option (Outcome G P)
  unfolding encrypted_as
  handle_send_message c room_id plaintext random_bytes = elim (lookup room_id c.rooms) [
    | none ↦ some (c, err (room_not_found room_id))
    | some room ↦
        encrypted_as c room_id room
          (encrypt mac aead room.sender_keys room.my_leaf_index plaintext random_bytes)
  ]

module _ {G P : Type 0} (mls : OpenMls G P) (mac : Key → List ℕ → Key) (aead : Aead) (cbor : Cbor)
    (ed : Ed25519) where
  decrypted :
      Client G P
      → ℕ
      → RoomState G
      → Frame
      → ℕ
      → SenderKeyStore × Result SenderKeyError (List ℕ)
      → Outcome G P
  decrypted c room_id room frame sender (keys, err e) =
      (with_room c room_id (record room { sender_keys = keys }), err (sender_key e))
  decrypted c room_id room frame sender (keys, ok plaintext) = (
    with_room c room_id (record room { sender_keys = keys }),
    ok (
        deliver_message room_id sender plaintext (Header.log_index frame.header)
          (Header.hlc_timestamp frame.header)
        ∷ []),
  )

  -- The member at the leaf that the payload names has to be the sender in the header.
  from_member : Client G P → ℕ → RoomState G → Frame → EncryptedMessage → Option ℕ → Outcome G P
  unfolding decrypted
  from_member c room_id room frame e none =
      (c, err (invalid_frame (unknown_sender_index e.sender_index)))
  from_member c room_id room frame e (some verified) =
      if not (Header.sender_id frame.header == verified)
      then (
        c,
        err (
            invalid_frame
              (sender_id_mismatch (Header.sender_id frame.header) e.sender_index verified)),
      )
      else decrypted c room_id room frame verified
          (decrypt mac aead room.sender_keys (proto_to_crypto_encrypted e))

  payload_read : Client G P → ℕ → RoomState G → Frame → Option EncryptedMessage → Outcome G P
  unfolding from_member
  payload_read c room_id room frame none = (c, err (invalid_frame undecodable))
  payload_read c room_id room frame (some e) =
      from_member c room_id room frame e (member_id_by_leaf_index mls room.mls_group e.sender_index)

  validated : Client G P → ℕ → RoomState G → Frame → Result MlsError (Unit {0}) → Outcome G P
  unfolding payload_read
  validated c room_id room frame (err e) = (c, err (invalid_frame (Types.InvalidText.of_mls e)))
  validated c room_id room frame (ok _) =
      payload_read c room_id room frame (cbor.app_message.from_reader frame.payload)

  in_room : Client G P → ℕ → Frame → Option (RoomState G) → Outcome G P
  unfolding validated
  in_room c room_id frame none = (c, err (room_not_found room_id))
  in_room c room_id frame (some room) =
      let frame_epoch = Header.epoch frame.header in
      let room_epoch = epoch mls room.mls_group in
      if not (frame_epoch == room_epoch)
      then (
        c,
        ok (
            log_line (epoch_differs room_id frame_epoch room_epoch)
            ∷ request_sync room_id room_epoch frame_epoch
            ∷ []),
      )
      else validated c room_id room frame (
          validate_frame mls ed room.mls_group frame
            (some (export_validation_state mls room.mls_group)))

  -- The client's own messages are skipped.
  unfoldable pub handle_app_message : Client G P → ℕ → Frame → Outcome G P
  unfolding in_room
  handle_app_message c room_id frame =
      if Header.sender_id frame.header == c.sender_id
      then (c, ok [])
      else in_room c room_id frame (lookup room_id c.rooms)
