-- ===== src/Server/RoomManager.antt =====
-- crates/lockframe-server/src/room_manager.rs: rooms that were created, and the routing of their
-- frames through the sequencer. The instant `now` is a number.
pub mod Log
pub mod Sync
pub mod Creation
use lockframe.Common.{
  ℕ, ◌+◌, ◌-◌, ◌%◌, ◌^◌, List, [], ◌∷◌, map, Bool, true, false, not, Option, none, some, ltb, leb,
  ◌==◌, if◌then◌else◌, Result, ok, err, ok_or, ◌>>=◌, map_err, length, Map, lookup, insert, remove,
  contains_key,
}
use lockframe.Proto.Errors.{ProtocolError}
use lockframe.Proto.Header
use lockframe.Proto.Frame.{Frame}
use lockframe.Proto.Frame
use lockframe.Server.Storage.{Storage, StorageError, conflict, StoredRoomMetadata}
use lockframe.Server.Sequencer.{
  Sequencer, SequencerAction, SequencerError, Invalid, accept_frame, reject_frame, store_frame,
  broadcast_to_room,
}
use lockframe.Server.Sequencer

pub record RoomMetadata : Type 0 where
  pub creator : ℕ
  pub created_at_secs : ℕ

pub record RoomManager : Type 0 where
  pub sequencer : Sequencer
  pub room_metadata : Map RoomMetadata

pub data RoomAction : Type 0 where
  broadcast : ℕ → Frame → Bool → ℕ → RoomAction
  persist_frame : ℕ → ℕ → Frame → ℕ → RoomAction
  reject : ℕ → Invalid → ℕ → RoomAction
  send_sync_response : ℕ → ℕ → List (List ℕ) → Bool → ℕ → RoomAction

pub data RoomError : Type 0 where
  sequencing : SequencerError → RoomError
  storage : StorageError → RoomError
  room_not_found room_already_exists : ℕ → RoomError

unfoldable pub new : RoomManager
new = record { sequencer = Sequencer.new; room_metadata = [] }

unfoldable pub has_room : RoomManager → ℕ → Bool
has_room rm room_id = contains_key room_id rm.room_metadata

unfoldable pub clear_room_sequencer : RoomManager → ℕ → RoomManager × Bool
clear_room_sequencer rm room_id =
    let (q, was) = Sequencer.clear_room rm.sequencer room_id in (record rm { sequencer = q }, was)

-- The `filter_map` over the sequencer's actions, for an instant.
unfoldable pub room_actions : ℕ → List SequencerAction → List RoomAction
room_actions now [] = []
room_actions now (accept_frame room_id log_index frame ∷ actions) = room_actions now actions
room_actions now (store_frame room_id log_index frame ∷ actions) =
    persist_frame room_id log_index frame now ∷ room_actions now actions
room_actions now (broadcast_to_room room_id frame ∷ actions) =
    broadcast room_id frame false now ∷ room_actions now actions
room_actions now (reject_frame room_id reason original ∷ actions) =
    reject (Header.sender_id original.header) reason now ∷ room_actions now actions

-- `f.encode(&mut buf).expect(…)` for each frame: `none` is the panic.
encode_all : List Frame → Option (List (List ℕ))
encode_all [] = some []
encode_all (f ∷ fs) = elim (Frame.encode f) [
  | err e ↦ none
  | ok bytes ↦ elim (encode_all fs) [ none ↦ none | some rest ↦ some (bytes ∷ rest) ]
]

-- The index of the last frame of the answer, or the one before the range. A sum past the end of u64
-- panics.
last_loaded : ℕ → ℕ → Option ℕ
last_loaded from count =
    if count == 0
    then some (from - 1)
    else if leb (2 ^ 64) (from + count)
    then none
    else some (from + count - 1)

has_more_after : ℕ → Option ℕ → Bool
has_more_after last none = false
has_more_after last (some latest) = ltb last latest

sync_response :
    ℕ
    → ℕ
    → ℕ
    → ℕ
    → List Frame
    → List (List ℕ)
    → Result StorageError (Option ℕ)
    → Option (Result RoomError RoomAction)
unfolding last_loaded has_more_after
sync_response room_id sender_id from now frames bytes (err e) = some (err (storage e))
sync_response room_id sender_id from now frames bytes (ok latest) =
    elim (last_loaded from (length frames)) [
      | none ↦ none
      | some last ↦
          some (ok (send_sync_response sender_id room_id bytes (has_more_after last latest) now))
    ]

module _ {S : Type 0} (st : Storage S) where
  recorded :
      RoomManager
      → ℕ
      → StoredRoomMetadata
      → S × Result StorageError (Unit {0})
      → RoomManager × S × Result RoomError (Unit {0})
  recorded rm room_id stored (s, err e) = (rm, s, err (storage e))
  recorded rm room_id stored (s, ok _) = (
    record rm {
      room_metadata =
          insert room_id
            (record { creator = stored.creator; created_at_secs = stored.created_at_secs })
            rm.room_metadata;
    },
    s,
    ok tt,
  )

  -- `clock` is `env.wall_clock_secs()`.
  unfoldable pub create_room :
      RoomManager → ℕ → ℕ → ℕ → S → RoomManager × S × Result RoomError (Unit {0})
  unfolding recorded has_room
  create_room rm room_id creator clock s =
      let stored : StoredRoomMetadata = record { creator = creator; created_at_secs = clock } in
      if has_room rm room_id
      then (rm, s, err (room_already_exists room_id))
      else recorded rm room_id stored (st.create_room s room_id stored)

  -- `none` is a panic, of the store, of the encoding or of the sum of indices.
  unfoldable pub handle_sync_request :
      RoomManager → ℕ → ℕ → ℕ → ℕ → ℕ → S → Option (Result RoomError RoomAction)
  unfolding sync_response encode_all has_room
  handle_sync_request rm room_id sender_id from limit now s =
      if not (has_room rm room_id)
      then some (err (room_not_found room_id))
      else elim (st.load_frames s room_id from limit) [
        | none ↦ none
        | some (err e) ↦ some (err (storage e))
        | some (ok frames) ↦ elim (encode_all frames) [
          | none ↦ none
          | some bytes ↦
              sync_response room_id sender_id from now frames bytes (st.latest_log_index s room_id)
        ]
      ]

  recovered : RoomManager → ℕ → StoredRoomMetadata → S → RoomManager × Result RoomError (Unit {0})
  recovered rm room_id stored s =
      let (q, result) = Sequencer.initialize_room st rm.sequencer room_id s in
      (
        record {
          sequencer = q;
          room_metadata =
              insert room_id
                (record { creator = stored.creator; created_at_secs = stored.created_at_secs })
                rm.room_metadata;
        },
        map_err sequencing result,
      )

  unfoldable pub recover_room : RoomManager → ℕ → S → RoomManager × Result RoomError (Unit {0})
  unfolding recovered
  recover_room rm room_id s =
      if contains_key room_id rm.room_metadata
      then (rm, ok tt)
      else elim (st.load_room_metadata s room_id) [
        | err e ↦ (rm, err (storage e))
        | ok none ↦ (rm, err (room_not_found room_id))
        | ok (some stored) ↦ recovered rm room_id stored s
      ]

  unfoldable pub process_frame :
      RoomManager → Frame → ℕ → S → RoomManager × Result RoomError (List RoomAction)
  unfolding has_room
  process_frame rm frame now s =
      let room_id = Header.room_id frame.header in
      let (q, result) = Sequencer.process_frame st rm.sequencer frame s in
      if not (has_room rm room_id) then (rm, err (room_not_found room_id)) else (
        record rm { sequencer = q },
        map_err sequencing result >>= λ actions. ok (room_actions now actions),
      )
