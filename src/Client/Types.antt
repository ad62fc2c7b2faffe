-- ===== src/Client/Types.antt =====
-- crates/lockframe-client/src/{client,event,error}.rs: the state of a client, its events, its actions and its
-- errors. Texts stand as data.
use lockframe.Common.{ℕ, List, Bool, true, false, Option, Map, Result}
use lockframe.Proto.Errors.{ProtocolError}
use lockframe.Proto.Frame.{Frame}
use lockframe.Core.Mls.{MlsGroup, MlsError, MlsAction}
use lockframe.Core.Mls
use lockframe.Crypto.Errors.{SenderKeyError}
use lockframe.Crypto.Errors
use lockframe.Client.SenderKeys.{SenderKeyStore}

pub data InvalidText : Type 0 where
  unknown_opcode unknown_sender_index no_pending_add no_pending_external_join : ℕ → InvalidText
  payload_too_large undecodable : InvalidText
  of_mls : MlsError → InvalidText
  sender_id_mismatch : ℕ → ℕ → ℕ → InvalidText
  of_protocol : ProtocolError → InvalidText
  undecodable_sync_frame : ℕ → ProtocolError → InvalidText

pub data MlsReason : Type 0 where
  of_mls : MlsError → MlsReason
  no_pending_key_package : MlsReason
  no_key_package_matched : Option MlsError → MlsReason

pub data ClientError : Type 0 where
  room_not_found room_already_exists : ℕ → ClientError
  epoch_mismatch : ℕ → ℕ → ClientError
  mls : MlsReason → ClientError
  sender_key : SenderKeyError → ClientError
  invalid_frame : InvalidText → ClientError
  invalid_state : ClientError
  sync_required : ℕ → ℕ → ClientError

pub data LogMessage : Type 0 where
  created_room server_error joined_via_welcome joined_via_join_room ignoring_own_commit :
      ℕ → LogMessage
  epoch_differs : ℕ → ℕ → ℕ → LogMessage
  welcome_failed : ℕ → ClientError → LogMessage
  processing_sync : ℕ → ℕ → Bool → ℕ → LogMessage
  sync_frame_failed : ℕ → ClientError → LogMessage
  sync_incomplete sync_complete : ℕ → ℕ → LogMessage
  published_key_package : LogMessage
  fetching_key_package added_user fetch_timed_out : ℕ → ℕ → LogMessage
  add_failed : ℕ → ℕ → MlsError → LogMessage
  no_key_package pending_room_missing requesting_group_info : ℕ → LogMessage
  commit_timed_out : ℕ → ℕ → LogMessage
  group_info_not_encoded : ProtocolError → LogMessage
  of_group : Mls.LogText → LogMessage

pub record RoomStateSnapshot : Type 0 where
  pub room_id : ℕ
  pub epoch : ℕ
  pub mls_state : List ℕ
  pub my_leaf_index : ℕ

pub data Removal : Type 0 where
  removed_by_commit left_room : Removal

pub data ClientAction : Type 0 where
  send : Frame → ClientAction
  deliver_message : ℕ → ℕ → List ℕ → ℕ → ℕ → ClientAction
  request_sync : ℕ → ℕ → ℕ → ClientAction
  persist_room : RoomStateSnapshot → ClientAction
  room_removed : ℕ → Removal → ClientAction
  log_line : LogMessage → ClientAction
  member_added room_joined : ℕ → ℕ → ClientAction
  key_package_published : ClientAction
  key_package_needed : ClientError → ClientAction

pub data ClientEvent : Type 0 where
  frame_received : Frame → ClientEvent
  timer_tick : ℕ → ClientEvent
  send_message : ℕ → List ℕ → ClientEvent
  create_room leave_room external_join : ℕ → ClientEvent
  join_room : ℕ → List ℕ → ClientEvent
  add_members : ℕ → List (List ℕ) → ClientEvent
  remove_members : ℕ → List ℕ → ClientEvent
  publish_key_package : ClientEvent
  fetch_and_add_member : ℕ → ℕ → ClientEvent

pub record RoomState (G : Type 0) : Type 0 where
  pub mls_group : MlsGroup G
  pub sender_keys : SenderKeyStore
  pub my_leaf_index : ℕ

-- `P` is the private state of a key package. The keys of the two other maps are a hash and a pair
-- of a room and a user.
pub record Client (G P : Type 0) : Type 0 where
  pub sender_id : ℕ
  pub rooms : Map (RoomState G)
  pub pending_joins : List (List ℕ × P)
  pub pending_adds : List ((ℕ × ℕ) × ℕ)
  pub pending_external_joins : List ℕ

abbrev pub Actions : Type 0
Actions = List ClientAction

-- A method with `&mut self`: the client after the call, and the result.
abbrev pub Outcome : Type 0 → Type 0 → Type 0
Outcome G P = Client G P × Result ClientError Actions

-- What the environment gives for an event: the time, a seed, and the random bytes of a nonce.
pub record Reading : Type 0 where
  pub now : ℕ
  pub seed : ℕ
  pub random_bytes : List ℕ

unfoldable pub is_fatal : ClientError → Bool
is_fatal (invalid_frame _) = true
is_fatal invalid_state = true
is_fatal (mls _) = true
is_fatal (sender_key e) = Errors.is_fatal e
is_fatal _ = false
