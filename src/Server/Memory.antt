-- ===== src/Server/Memory.antt =====
-- crates/lockframe-server/src/storage/memory.rs: the in-memory store. The mutex around it makes
-- each method one step. `usize` has 64 bits; the profiles of the workspace check overflows, so
-- that a sum past the end of `usize` panics. The one panic under the lock is this one, which poisons
-- the mutex; a poisoned store, whose next call panics too, is not a state of the model.
pub mod Logs
use lockframe.Common.{
  ℕ, ◌+◌, ◌-◌, ◌%◌, ◌^◌, min, List, [], ◌∷◌, ◌++◌, map, Option, none, some, ltb, leb, ◌==◌,
  if◌then◌else◌, Result, ok, err, length, take, drop, Map, lookup, insert, contains_key, not,
}
use lockframe.Proto.Frame.{Frame}
use lockframe.Core.GroupState.{MlsGroupState}
use lockframe.Server.Storage.{
  Storage, StorageError, not_found, conflict, StoredRoomMetadata, last_index,
}

pub record MemoryStorage : Type 0 where
  pub rooms : Map StoredRoomMetadata
  pub frames : Map (List Frame)
  pub mls_states : Map MlsGroupState
  pub group_infos : Map (ℕ × List ℕ)

unfoldable pub new : MemoryStorage
new = record { rooms = []; frames = []; mls_states = []; group_infos = [] }

unfoldable pub room_count : MemoryStorage → ℕ
room_count m = length m.frames

sum_lengths : Map (List Frame) → ℕ
sum_lengths [] = 0
sum_lengths ((_, fs) ∷ m) = length fs + sum_lengths m

unfoldable pub total_frame_count : MemoryStorage → ℕ
unfolding sum_lengths
total_frame_count m = sum_lengths m.frames

abbrev or_default : Option (List Frame) → List Frame
or_default none = []
or_default (some fs) = fs

-- The entry is created even if the write is refused.
unfoldable pub store_frame :
    MemoryStorage → ℕ → ℕ → Frame → MemoryStorage × Result StorageError (Unit {0})
store_frame m room_id log_index frame =
    let frames = or_default (lookup room_id m.frames) in
    let expected_index = length frames in
    if not (log_index == expected_index)
    then (
      record m { frames = insert room_id frames m.frames },
      err (conflict expected_index log_index),
    )
    else (record m { frames = insert room_id (frames ++ frame ∷ []) m.frames }, ok tt)

latest_of : Option (List Frame) → Option ℕ
latest_of none = none
latest_of (some fs) = if length fs == 0 then none else some (length fs - 1)

unfoldable pub latest_log_index : MemoryStorage → ℕ → Result StorageError (Option ℕ)
unfolding latest_of
latest_log_index m room_id = ok (latest_of (lookup room_id m.frames))

slice : List Frame → ℕ → ℕ → Option (Result StorageError (List Frame))
slice frames start limit =
    let end = min (start + limit) (length frames) in
    if leb (2 ^ 64) (start + limit)
    then none
    else if ltb (length frames) start
    then some (ok [])
    else some (ok (take (end - start) (drop start frames)))

unfoldable pub load_frames : MemoryStorage → ℕ → ℕ → ℕ → Option (Result StorageError (List Frame))
unfolding slice
load_frames m room_id from limit = elim (lookup room_id m.frames) [
  | none ↦ some (err (not_found room_id from))
  | some frames ↦ slice frames from limit
]

unfoldable pub store_mls_state :
    MemoryStorage → ℕ → MlsGroupState → MemoryStorage × Result StorageError (Unit {0})
store_mls_state m room_id state =
    (record m { mls_states = insert room_id state m.mls_states }, ok tt)

unfoldable pub load_mls_state : MemoryStorage → ℕ → Result StorageError (Option MlsGroupState)
load_mls_state m room_id = ok (lookup room_id m.mls_states)

unfoldable pub store_group_info :
    MemoryStorage → ℕ → ℕ → List ℕ → MemoryStorage × Result StorageError (Unit {0})
store_group_info m room_id epoch group_info =
    (record m { group_infos = insert room_id (epoch, group_info) m.group_infos }, ok tt)

unfoldable pub load_group_info : MemoryStorage → ℕ → Result StorageError (Option (ℕ × List ℕ))
load_group_info m room_id = ok (lookup room_id m.group_infos)

unfoldable pub list_rooms : MemoryStorage → Result StorageError (List ℕ)
list_rooms m = ok (map (λ entry. entry.0) m.rooms)

unfoldable pub create_room :
    MemoryStorage → ℕ → StoredRoomMetadata → MemoryStorage × Result StorageError (Unit {0})
create_room m room_id metadata =
    if contains_key room_id m.rooms
    then (m, ok tt)
    else (record m { rooms = insert room_id metadata m.rooms }, ok tt)

unfoldable pub load_room_metadata :
    MemoryStorage → ℕ → Result StorageError (Option StoredRoomMetadata)
load_room_metadata m room_id = ok (lookup room_id m.rooms)

abbrev pub memory : Storage MemoryStorage
memory = record {
  store_frame = store_frame;
  latest_log_index = latest_log_index;
  load_frames = load_frames;
  store_mls_state = store_mls_state;
  load_mls_state = load_mls_state;
  store_group_info = store_group_info;
  load_group_info = load_group_info;
  list_rooms = list_rooms;
  create_room = create_room;
  load_room_metadata = load_room_metadata;
}
