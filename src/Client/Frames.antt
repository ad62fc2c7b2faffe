-- ===== src/Client/Frames.antt =====
-- Frames and events of a client (crates/lockframe-client/src/client.rs). The frames of a sync
-- response may be sync responses themselves: the recursion is on fuel, and `none` is its end.
pub mod Fuel
pub mod Unchecked
use lockframe.Common.{
  ℕ, zero, suc, ◌+◌, List, [], ◌∷◌, ◌++◌, Bool, Option, none, some, if◌then◌else◌, Result, ok, err,
  ◌>>=◌, map_err, length, lookup,
}
use lockframe.Proto.Opcode.{Opcode}
use lockframe.Proto.Header.{opcode_enum}
use lockframe.Proto.Header
use lockframe.Proto.Frame.{Frame}
use lockframe.Proto.Frame
use lockframe.Proto.Payload.Types.{SyncResponse}
use lockframe.Proto.Payload.Coder.{Cbor}
use lockframe.Core.Validator.{Ed25519}
use lockframe.Core.Mls.{OpenMls}
use lockframe.Core.Mls.Membership.{epoch}
use lockframe.Core.Mls.Commits.{process_message}
use lockframe.Crypto.Ratchet.{Key}
use lockframe.Crypto.Encryption.{Aead}
use lockframe.Client.Types.{
  Client, ClientError, ClientAction, ClientEvent, Actions, Outcome, RoomState, Reading,
  room_not_found, invalid_frame, unknown_opcode, undecodable, undecodable_sync_frame, log_line,
  server_error, request_sync, processing_sync, sync_frame_failed, sync_incomplete, sync_complete,
  frame_received, timer_tick, send_message, create_room, leave_room, external_join, join_room,
  add_members, remove_members, publish_key_package, fetch_and_add_member,
}
use lockframe.Client.Rooms.{
  handle_create_room, handle_leave_room, handle_welcome, handle_join_room, handle_external_join,
  handle_group_info_response,
}
use lockframe.Client.Messages.{handle_send_message, handle_app_message}
use lockframe.Client.Commits.{handle_commit}
use lockframe.Client.Members.{
  converted, handle_add_members, handle_remove_members, handle_publish_key_package,
  handle_fetch_and_add_member, handle_key_package_fetch_response, handle_tick,
}

abbrev pub Handler : Type 0 → Type 0 → Type 0
Handler G P = Client G P → Frame → Option (Outcome G P)

-- What a frame answers, or the log line about its error.
collected : ℕ → Result ClientError Actions → Actions
collected i (ok actions) = actions
collected i (err e) = log_line (sync_frame_failed i e) ∷ []

module _ {G P : Type 0} where
  -- The answer to a frame, and then to the rest.
  after_frame :
      ℕ → Option (Outcome G P) → (Client G P → Option (Outcome G P)) → Option (Outcome G P)
  unfolding collected
  after_frame i none rest = none
  after_frame i (some (c, result)) rest = elim (rest c) [
    | none ↦ none
    | some (c', more) ↦ some (c', more >>= λ actions. ok (collected i result ++ actions))
  ]

  -- The loop over the frames of a sync response; a frame that cannot be decoded ends it with an
  -- error.
  unfoldable pub sync_frames : Handler G P → List (List ℕ) → ℕ → Client G P → Option (Outcome G P)
  unfolding after_frame
  sync_frames handle [] i c = some (c, ok [])
  sync_frames handle (bytes ∷ rest) i c = elim (Frame.decode bytes) [
    | err e ↦ some (c, err (invalid_frame (undecodable_sync_frame i e)))
    | ok frame ↦ after_frame i (handle c frame) (λ c'. sync_frames handle rest (i + 1) c')
  ]

  abbrev epoch_or_zero : OpenMls G P → Client G P → ℕ → ℕ
  epoch_or_zero mls c room_id = elim (lookup room_id c.rooms) [
    | none ↦ 0
    | some room ↦ epoch mls room.mls_group
  ]

  -- The last actions of `handle_sync_response`.
  sync_end : OpenMls G P → Client G P → ℕ → SyncResponse → Actions
  sync_end mls c room_id response =
      let current = epoch_or_zero mls c room_id in
      if response.has_more
      then (request_sync room_id current response.server_epoch
          ∷ log_line (sync_incomplete room_id current)
          ∷ [])
      else (log_line (sync_complete room_id current) ∷ [])

  synced : OpenMls G P → ℕ → SyncResponse → Option (Outcome G P) → Option (Outcome G P)
  unfolding sync_end
  synced mls room_id response none = none
  synced mls room_id response (some (c, result)) = some (
    c,
    result >>= λ actions. ok (
        (log_line (
            processing_sync room_id (length response.frames) response.has_more
              response.server_epoch)
          ∷ actions)
        ++ sync_end mls c room_id response),
  )

module _ {G P : Type 0} (mls : OpenMls G P) (expand : List ℕ → List ℕ → ℕ → List ℕ)
    (mac : Key → List ℕ → Key) (aead : Aead) (cbor : Cbor) (ed : Ed25519) where
  unfoldable pub handle_sync_response : Handler G P → Client G P → ℕ → Frame → Option (Outcome G P)
  unfolding synced
  handle_sync_response handle c room_id frame =
      elim (cbor.sync_response.from_reader frame.payload) [
        | none ↦ some (c, err (invalid_frame undecodable))
        | some response ↦ synced mls room_id response (sync_frames handle response.frames 0 c)
      ]

  -- Any other frame of a room goes to its group.
  handle_group_frame : Client G P → ℕ → Frame → Outcome G P
  handle_group_frame c room_id frame = elim (lookup room_id c.rooms) [
    | none ↦ (c, err (room_not_found room_id))
    | some room ↦ converted mls cbor c room_id room (process_message mls room.mls_group frame)
  ]

  -- The `match` on the opcode, with the handler for the frames inside a sync response.
  unfoldable pub dispatch :
      Handler G P → Client G P → Frame → Reading → Option Opcode → Option (Outcome G P)
  unfolding handle_group_frame
  dispatch handle c frame env none =
      some (c, err (invalid_frame (unknown_opcode (Header.opcode frame.header))))
  dispatch handle c frame env (some Opcode.hello_reply) = some (c, ok [])
  dispatch handle c frame env (some Opcode.pong) = some (c, ok [])
  dispatch handle c frame env (some Opcode.error) =
      some (c, ok (log_line (server_error (Header.room_id frame.header)) ∷ []))
  dispatch handle c frame env (some Opcode.app_message) =
      some (handle_app_message mls mac aead cbor ed c (Header.room_id frame.header) frame)
  dispatch handle c frame env (some Opcode.commit) =
      some (handle_commit mls expand cbor c (Header.room_id frame.header) frame)
  dispatch handle c frame env (some Opcode.external_commit) =
      some (handle_commit mls expand cbor c (Header.room_id frame.header) frame)
  dispatch handle c frame env (some Opcode.welcome) =
      some (handle_welcome mls expand cbor c (Header.room_id frame.header) frame)
  dispatch handle c frame env (some Opcode.sync_response) =
      handle_sync_response handle c (Header.room_id frame.header) frame
  dispatch handle c frame env (some Opcode.key_package_fetch) =
      some (handle_key_package_fetch_response mls cbor c frame env)
  dispatch handle c frame env (some Opcode.group_info) =
      some (handle_group_info_response mls expand cbor c frame env)
  dispatch handle c frame env (some _) =
      some (handle_group_frame c (Header.room_id frame.header) frame)

  unfoldable pub handle_frame : ℕ → Reading → Client G P → Frame → Option (Outcome G P)
  handle_frame zero env c frame = none
  handle_frame (suc fuel) env c frame =
      dispatch (handle_frame fuel env) c frame env (opcode_enum frame.header)

  -- `none` is a panic, or the end of the fuel, which is more than the bytes of the frame.
  unfoldable pub handle : Client G P → ClientEvent → Reading → Option (Outcome G P)
  handle c (create_room room_id) env = some (handle_create_room mls expand cbor c room_id env)
  handle c (send_message room_id plaintext) env =
      handle_send_message mls mac aead cbor c room_id plaintext env.random_bytes
  handle c (frame_received frame) env = handle_frame (suc (length frame.payload)) env c frame
  handle c (timer_tick now) env = some (handle_tick mls c now)
  handle c (leave_room room_id) env = some (handle_leave_room c room_id)
  handle c (join_room room_id welcome) env =
      some (handle_join_room mls expand cbor c room_id welcome)
  handle c (add_members room_id key_packages) env =
      some (handle_add_members mls cbor c room_id key_packages env)
  handle c (remove_members room_id member_ids) env =
      some (handle_remove_members mls cbor c room_id member_ids env)
  handle c publish_key_package env = some (handle_publish_key_package mls cbor c env)
  handle c (fetch_and_add_member room_id user_id) env =
      some (handle_fetch_and_add_member mls cbor c room_id user_id env)
  handle c (external_join room_id) env = some (handle_external_join mls expand cbor c room_id)
