-- ===== src/Server/Sequencer.antt =====
-- crates/lockframe-server/src/sequencer.rs: the cache of each room's next log index, and the
-- order that it gives to frames. The store is any `Storage`. The sum in
-- `next_after` is written with its wrap-around: with overflow checks it would panic instead, in
-- the one case of a stored index 2^64 - 1, which no frame gets.
pub mod Indices
pub mod Signatures
use lockframe.Common.{
  ℕ, ◌+◌, ◌-◌, ◌%◌, ◌^◌, List, [], ◌∷◌, Bool, true, false, not, Option, none, some, ltb, ◌==◌,
  if◌then◌else◌, Result, ok, err, length, Map, lookup, insert, remove, contains_key,
}
use lockframe.Proto.Opcode.{Opcode, is_welcome}
use lockframe.Proto.Header.{magic_number, protocol_version, opcode_enum, set_log_index}
use lockframe.Proto.Header
use lockframe.Proto.Frame.{Frame}
use lockframe.Proto.Frame
use lockframe.Server.Storage.{Storage, StorageError}

-- crates/lockframe-core/src/mls/constants.rs
abbrev pub max_epoch : ℕ
max_epoch = 1_000_000

abbrev pub u64_max : ℕ
u64_max = 2 ^ 64 - 1

-- The texts of the validation errors, as data.
pub data Invalid : Type 0 where
  invalid_magic unsupported_version epoch_too_high log_index_overflow : ℕ → Invalid
  payload_size_mismatch : ℕ → ℕ → Invalid
  room_id_zero : Invalid

pub data SequencerError : Type 0 where
  storage : StorageError → SequencerError
  validation : Invalid → SequencerError
  rejected : SequencerError

pub data SequencerAction : Type 0 where
  accept_frame : ℕ → ℕ → Frame → SequencerAction
  reject_frame : ℕ → Invalid → Frame → SequencerAction
  store_frame : ℕ → ℕ → Frame → SequencerAction
  broadcast_to_room : ℕ → Frame → SequencerAction

pub record RoomSequencer : Type 0 where
  pub next_log_index : ℕ

pub record Sequencer : Type 0 where
  pub rooms : Map RoomSequencer

unfoldable pub new : Sequencer
new = record { rooms = [] }

unfoldable pub validate_frame_structure : Frame → Result SequencerError (Unit {0})
validate_frame_structure f =
    if not (Header.magic f.header == magic_number)
    then err (validation (invalid_magic (Header.magic f.header)))
    else if not (f.header.version == protocol_version)
    then err (validation (unsupported_version f.header.version))
    else if not (length f.payload == Header.payload_size f.header)
    then err (validation (payload_size_mismatch (Header.payload_size f.header) (length f.payload)))
    else if Header.room_id f.header == 0
    then err (validation room_id_zero)
    else if ltb max_epoch (Header.epoch f.header)
    then err (validation (epoch_too_high (Header.epoch f.header)))
    else ok tt

unfoldable pub rebuild_frame_with_index : Frame → ℕ → Frame
rebuild_frame_with_index original log_index =
    Frame.new (set_log_index original.header log_index) original.payload

-- `latest_index.map_or(0, |i| i + 1)`
abbrev pub next_after : Option ℕ → ℕ
next_after none = 0
next_after (some i) = (i + 1) % 2 ^ 64

abbrev Sequenced : Type 0
Sequenced = Sequencer × Result SequencerError (List SequencerAction)

-- The index for the frame is the cached one; the cache moves on, unless it is at the end of u64.
assign : Sequencer → ℕ → Frame → ℕ → Sequenced
assign q room_id frame log_index =
    if log_index == u64_max
    then (q, err (validation (log_index_overflow room_id)))
    else let sequenced = rebuild_frame_with_index frame log_index in
      (
        record q { rooms = insert room_id (record { next_log_index = log_index + 1 }) q.rooms },
        ok (
            accept_frame room_id log_index sequenced
            ∷ store_frame room_id log_index sequenced
            ∷ broadcast_to_room room_id sequenced
            ∷ []),
      )

-- A vacant entry is filled from the store.
enter : Sequencer → ℕ → Frame → Result StorageError (Option ℕ) → Sequenced
unfolding assign
enter q room_id frame (err e) = (q, err (storage e))
enter q room_id frame (ok latest) =
    assign
      (record q { rooms = insert room_id (record { next_log_index = next_after latest }) q.rooms })
      room_id frame (next_after latest)

sequence : Sequencer → ℕ → Frame → Option RoomSequencer → Result StorageError (Option ℕ) → Sequenced
unfolding assign enter
sequence q room_id frame (some room) latest = assign q room_id frame room.next_log_index
sequence q room_id frame none latest = enter q room_id frame latest

-- A Welcome is passed on without an index.
route : Sequencer → ℕ → Frame → Bool → Result StorageError (Option ℕ) → Sequenced
unfolding sequence
route q room_id frame true latest = (q, ok (broadcast_to_room room_id frame ∷ []))
route q room_id frame false latest = sequence q room_id frame (lookup room_id q.rooms) latest

unfoldable pub clear_room : Sequencer → ℕ → Sequencer × Bool
clear_room q room_id = (record q { rooms = remove room_id q.rooms }, contains_key room_id q.rooms)

initialized :
    Sequencer → ℕ → Result StorageError (Option ℕ) → Sequencer × Result SequencerError (Unit {0})
initialized q room_id (err e) = (q, err (storage e))
initialized q room_id (ok latest) = (
  record q { rooms = insert room_id (record { next_log_index = next_after latest }) q.rooms },
  ok tt,
)

module _ {S : Type 0} (st : Storage S) where
  unfoldable pub process_frame : Sequencer → Frame → S → Sequenced
  unfolding route
  process_frame q frame s = elim (validate_frame_structure frame) [
    | err e ↦ (q, err e)
    | ok _ ↦
        let room_id = Header.room_id frame.header in
        route q room_id frame (is_welcome (opcode_enum frame.header))
          (st.latest_log_index s room_id)
  ]

  unfoldable pub initialize_room : Sequencer → ℕ → S → Sequencer × Result SequencerError (Unit {0})
  unfolding initialized
  initialize_room q room_id s =
      if contains_key room_id q.rooms
      then (q, ok tt)
      else initialized q room_id (st.latest_log_index s room_id)
