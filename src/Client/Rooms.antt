-- ===== src/Client/Rooms.antt =====
-- Rooms of a client (crates/lockframe-client/src/client.rs): creating, joining and leaving them.
use lockframe.Common.{
  ℕ, List, [], ◌∷◌, ◌++◌, map, Bool, Option, none, some, if◌then◌else◌, Result, ok, err, ◌>>=◌,
  map_err, length, lookup, insert, remove, contains_key, set_remove, contains, set_insert,
}
use lockframe.Proto.Errors.{ProtocolError}
use lockframe.Proto.Opcode.{Opcode}
use lockframe.Proto.Header
use lockframe.Proto.Frame.{Frame}
use lockframe.Proto.Payload.Types.{Text}
use lockframe.Proto.Payload.Coder.{Cbor}
use lockframe.Proto.Payload.{Payload, into_frame}
use lockframe.Core.Mls.{OpenMls, MlsGroup, MlsError, MlsAction}
use lockframe.Core.Mls
use lockframe.Core.GroupState.{MlsGroupState}
use lockframe.Core.Mls.Membership.{
  export_group_state, epoch, own_leaf_index, member_leaf_indices, export_secret, export_state,
  export_group_state, generate_key_package, join_from_welcome, join_from_external,
}
use lockframe.Core.Mls.Membership
use lockframe.Client.SenderKeys.{SenderKeyStore, initialize_epoch}
use lockframe.Client.Types.{
  Client, ClientError, ClientAction, Actions, Outcome, Reading, RoomState, RoomStateSnapshot,
  InvalidText, MlsReason, LogMessage, room_not_found, room_already_exists, mls, invalid_frame,
  no_pending_key_package, no_key_package_matched, undecodable, send, deliver_message, request_sync,
  persist_room, room_removed, log_line, key_package_needed, room_joined, removed_by_commit,
  left_room, of_group, group_info_not_encoded, created_room, joined_via_welcome,
  joined_via_join_room, welcome_failed, no_pending_external_join, requesting_group_info,
}
use lockframe.Client.Types

-- "lockframe sender keys v1"
abbrev pub sender_key_label : Text
sender_key_label =
    b'l' ∷ b'o' ∷ b'c' ∷ b'k' ∷ b'f' ∷ b'r' ∷ b'a' ∷ b'm' ∷ b'e' ∷ 32 ∷ b's' ∷ b'e' ∷ b'n' ∷ b'd'
    ∷ b'e' ∷ b'r' ∷ 32 ∷ b'k' ∷ b'e' ∷ b'y' ∷ b's' ∷ 32 ∷ b'v' ∷ b'1' ∷ []

abbrev pub sender_key_secret_size : ℕ
sender_key_secret_size = 32

-- The conversion of an error of the group.
abbrev pub of_mls : {A : Type 0} → Result MlsError A → Result ClientError A
of_mls r = map_err (λ e. mls (Types.MlsReason.of_mls e)) r

module _ (cbor : Cbor) where
  info_frame : Result ProtocolError Frame → ClientAction
  info_frame (ok frame) = send frame
  info_frame (err e) = log_line (group_info_not_encoded e)

  unfoldable pub convert : ℕ → MlsAction → ClientAction
  unfolding info_frame
  convert room_id (Mls.send_commit frame) = send frame
  convert room_id (Mls.send_proposal frame) = send frame
  convert room_id (Mls.send_message frame) = send frame
  convert room_id (Mls.send_welcome recipient frame) = send frame
  convert room_id (Mls.deliver_message sender plaintext) =
      deliver_message room_id sender plaintext 0 0
  convert room_id Mls.remove_group = room_removed room_id removed_by_commit
  convert room_id (Mls.publish_group_info info_room_id at bytes) = info_frame (
      into_frame cbor
        (Payload.group_info
          (record { room_id = info_room_id; epoch = at; group_info_bytes = bytes }))
        (Header.new Opcode.group_info))
  convert room_id (Mls.log_line message) = log_line (of_group message)

  unfoldable pub convert_mls_actions : ℕ → List MlsAction → Actions
  convert_mls_actions room_id actions = map (convert room_id) actions

module _ {G P : Type 0} where
  unfoldable pub new : ℕ → Client G P
  new sender_id = record {
    sender_id = sender_id;
    rooms = [];
    pending_joins = [];
    pending_adds = [];
    pending_external_joins = [];
  }

  unfoldable pub room_count : Client G P → ℕ
  room_count c = length c.rooms

  unfoldable pub is_member : Client G P → ℕ → Bool
  is_member c room_id = contains_key room_id c.rooms

  abbrev pub with_room : Client G P → ℕ → RoomState G → Client G P
  with_room c room_id room = record c { rooms = insert room_id room c.rooms }

  unfoldable pub handle_leave_room : Client G P → ℕ → Outcome G P
  handle_leave_room c room_id =
      if contains_key room_id c.rooms
      then (record c { rooms = remove room_id c.rooms }, ok (room_removed room_id left_room ∷ []))
      else (c, err (room_not_found room_id))

module _ {G P : Type 0} (mls : OpenMls G P) (expand : List ℕ → List ℕ → ℕ → List ℕ)
    (cbor : Cbor) where
  unfoldable pub room_epoch : Client G P → ℕ → Option ℕ
  room_epoch c room_id = elim (lookup room_id c.rooms) [
    | none ↦ none
    | some room ↦ some (epoch mls room.mls_group)
  ]

  abbrev exported : Client G P → ℕ → Option MlsGroupState
  exported c room_id = elim (lookup room_id c.rooms) [
    | none ↦ none
    | some room ↦ elim (export_group_state mls room.mls_group) [
      | ok state ↦ some state
      | err e ↦ none
    ]
  ]

  unfoldable pub tree_hash : Client G P → ℕ → Option (List ℕ)
  tree_hash c room_id = elim (exported c room_id) [
    | none ↦ none
    | some state ↦ some state.tree_hash
  ]

  unfoldable pub member_ids : Client G P → ℕ → Option (List ℕ)
  member_ids c room_id = elim (exported c room_id) [ none ↦ none | some state ↦ some state.members ]

  unfoldable pub initialize_sender_keys : MlsGroup G → Result ClientError SenderKeyStore
  initialize_sender_keys g = do
    epoch_secret ← of_mls (export_secret mls g sender_key_label [] sender_key_secret_size)
    ok (initialize_epoch expand epoch_secret (epoch mls g) (member_leaf_indices mls g))

  abbrev pub room_of : MlsGroup G → SenderKeyStore → RoomState G
  room_of g sender_keys = record {
    mls_group = g;
    sender_keys = sender_keys;
    my_leaf_index = own_leaf_index mls g;
  }

  abbrev snapshot : ℕ → ℕ → List ℕ → MlsGroup G → ClientAction
  snapshot room_id at mls_state g = persist_room (record {
    room_id = room_id;
    epoch = at;
    mls_state = mls_state;
    my_leaf_index = own_leaf_index mls g;
  })

  -- A room that was built, with the actions; or the error, with nothing changed.
  abbrev entered : Client G P → ℕ → Result ClientError (RoomState G × Actions) → Outcome G P
  entered c room_id (err e) = (c, err e)
  entered c room_id (ok (room, actions)) = (with_room c room_id room, ok actions)

  unfoldable pub handle_create_room : Client G P → ℕ → Reading → Outcome G P
  handle_create_room c room_id env =
      if contains_key room_id c.rooms
      then (c, err (room_already_exists room_id))
      else entered c room_id (do
        made ← of_mls (Membership.new mls env.seed room_id c.sender_id)
        sender_keys ← initialize_sender_keys made.0
        initial_state ← of_mls (export_state mls made.0)
        ok (
          room_of made.0 sender_keys,
          convert_mls_actions cbor room_id made.1
              ++ snapshot room_id 0 initial_state made.0 ∷ log_line (created_room room_id) ∷ [],
        ))

  -- Each pending key package is tried in turn, and is gone whether it matched or not. `last` is the
  -- error of the one tried before.
  unfoldable pub try_each :
      ℕ
      → ℕ
      → List ℕ
      → List (List ℕ × P)
      → Option MlsError
      → List (List ℕ × P) × Result ClientError (MlsGroup G × List MlsAction)
  try_each room_id sender_id bytes [] last = ([], err (Types.mls (no_key_package_matched last)))
  try_each room_id sender_id bytes ((hash_ref, state) ∷ pending) last =
      elim (join_from_welcome mls room_id sender_id bytes state) [
        | ok joined ↦ (pending, ok joined)
        | err e ↦ try_each room_id sender_id bytes pending (some e)
      ]

  unfoldable pub try_join_from_welcome :
      Client G P → ℕ → List ℕ → Client G P × Result ClientError (MlsGroup G × List MlsAction)
  try_join_from_welcome c room_id bytes = elim c.pending_joins [
    | [] ↦ (c, err (Types.mls no_pending_key_package))
    | _ ∷ _ ↦
        let (pending, result) = try_each room_id c.sender_id bytes c.pending_joins none in
        (record c { pending_joins = pending }, result)
  ]

  -- The rest of `handle_welcome`, after the attempt to join.
  welcomed : Client G P → ℕ → Result ClientError (MlsGroup G × List MlsAction) → Outcome G P
  welcomed c room_id (err e) =
      (c, ok (log_line (welcome_failed room_id e) ∷ key_package_needed e ∷ []))
  welcomed c room_id (ok (g, mls_actions)) = entered c room_id (do
    sender_keys ← initialize_sender_keys g
    mls_state ← of_mls (export_state mls g)
    ok (
      room_of g sender_keys,
      convert_mls_actions cbor room_id mls_actions
          ++ log_line (joined_via_welcome room_id)
            ∷ snapshot room_id (epoch mls g) mls_state g
            ∷ request_sync room_id (epoch mls g) (epoch mls g)
            ∷ [],
    ))

  unfoldable pub handle_welcome : Client G P → ℕ → Frame → Outcome G P
  unfolding welcomed
  handle_welcome c room_id frame =
      if contains_key room_id c.rooms
      then (c, err (room_already_exists room_id))
      else let (c', joined) = try_join_from_welcome c room_id frame.payload in
        welcomed c' room_id joined

  joined_room : Client G P → ℕ → Result ClientError (MlsGroup G × List MlsAction) → Outcome G P
  joined_room c room_id (err e) = (c, err e)
  joined_room c room_id (ok (g, mls_actions)) = entered c room_id (do
    sender_keys ← initialize_sender_keys g
    ok (
      room_of g sender_keys,
      convert_mls_actions cbor room_id mls_actions ++ log_line (joined_via_join_room room_id) ∷ [],
    ))

  unfoldable pub handle_join_room : Client G P → ℕ → List ℕ → Outcome G P
  unfolding joined_room
  handle_join_room c room_id welcome =
      if contains_key room_id c.rooms
      then (c, err (room_already_exists room_id))
      else let (c', joined) = try_join_from_welcome c room_id welcome in
        joined_room c' room_id joined

  -- The request stays pending also if its frame cannot be encoded.
  unfoldable pub handle_external_join : Client G P → ℕ → Outcome G P
  handle_external_join c room_id =
      if contains_key room_id c.rooms then (c, err (room_already_exists room_id)) else (
        record c { pending_external_joins = set_insert room_id c.pending_external_joins },
        map_err (λ e. invalid_frame (Types.InvalidText.of_protocol e))
              (into_frame cbor (Payload.group_info_request (record { room_id = room_id }))
                (Header.new Opcode.group_info_request))
            >>= λ frame. ok (send frame ∷ log_line (requesting_group_info room_id) ∷ []),
      )

  external_joined : Client G P → ℕ → ℕ → List ℕ → Outcome G P
  external_joined c room_id seed bytes = entered c room_id (do
    made ← of_mls (join_from_external mls seed room_id c.sender_id bytes)
    sender_keys ← initialize_sender_keys made.0
    initial_state ← of_mls (export_state mls made.0)
    ok (
      room_of made.0 sender_keys,
      convert_mls_actions cbor room_id made.1
          ++ snapshot room_id (epoch mls made.0) initial_state made.0
            ∷ room_joined room_id (epoch mls made.0)
            ∷ [],
    ))

  -- The join is no longer pending, whatever comes of it.
  unfoldable pub handle_group_info_response : Client G P → Frame → Reading → Outcome G P
  unfolding external_joined
  handle_group_info_response c frame env = elim (cbor.group_info.from_reader frame.payload) [
    | none ↦ (c, err (invalid_frame undecodable))
    | some given ↦
        if contains given.room_id c.pending_external_joins
        then external_joined
            (record c {
              pending_external_joins = set_remove given.room_id c.pending_external_joins;
            })
            given.room_id env.seed given.group_info_bytes
        else (c, err (invalid_frame (no_pending_external_join given.room_id)))
  ]
