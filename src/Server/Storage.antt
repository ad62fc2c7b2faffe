-- ===== src/Server/Storage.antt =====
-- crates/lockframe-server/src/storage: the `Storage` trait, as operations over a type of store
-- contents, and what a room's log promises to the sequencer that relies on it.
use lockframe.Common.{
  ℕ, ◌≡◌, List, [], ◌∷◌, ◌++◌, Option, none, some, ◌==◌, if◌then◌else◌, Result, ok, err, length,
}
use lockframe.Proto.Frame.{Frame}
use lockframe.Core.GroupState.{MlsGroupState}

pub data StorageError : Type 0 where
  not_found : ℕ → ℕ → StorageError
  conflict : ℕ → ℕ → StorageError
  serialization io : StorageError

pub record StoredRoomMetadata : Type 0 where
  pub creator : ℕ
  pub created_at_secs : ℕ

-- The mutating methods return the contents after the call. `load_frames` may panic: `none`.
pub record Storage (S : Type 0) : Type 0 where
  pub store_frame : S → ℕ → ℕ → Frame → S × Result StorageError (Unit {0})
  pub latest_log_index : S → ℕ → Result StorageError (Option ℕ)
  pub load_frames : S → ℕ → ℕ → ℕ → Option (Result StorageError (List Frame))
  pub store_mls_state : S → ℕ → MlsGroupState → S × Result StorageError (Unit {0})
  pub load_mls_state : S → ℕ → Result StorageError (Option MlsGroupState)
  pub store_group_info : S → ℕ → ℕ → List ℕ → S × Result StorageError (Unit {0})
  pub load_group_info : S → ℕ → Result StorageError (Option (ℕ × List ℕ))
  pub list_rooms : S → Result StorageError (List ℕ)
  pub create_room : S → ℕ → StoredRoomMetadata → S × Result StorageError (Unit {0})
  pub load_room_metadata : S → ℕ → Result StorageError (Option StoredRoomMetadata)

-- The index of the last entry of a log.
abbrev pub last_index {ℓ} : {A : Type ℓ} → List A → Option ℕ
last_index [] = none
last_index (x ∷ xs) = some (length xs)

-- A log after a write at an index: only the next free index takes the frame.
abbrev pub written_at : List Frame → ℕ → Frame → List Frame
written_at log i f = if i == length log then log ++ f ∷ [] else log

abbrev pub write_result : List Frame → ℕ → Result StorageError (Unit {0})
write_result log i = if i == length log then ok tt else err (conflict (length log) i)

-- The promise of a store that never fails for reasons of its own: each room has a log, which
-- grows at its end alone.
pub record KeepsLogs {S : Type 0} (st : Storage S) (log : S → ℕ → List Frame) : Type 0 where
  pub latest : (s : S) (room : ℕ) → st.latest_log_index s room ≡ ok (last_index (log s room))
  pub stored :
      (s : S) (room i : ℕ) (f : Frame) → (st.store_frame s room i f).1 ≡ write_result (log s room) i
  pub grows :
      (s : S) (room i other : ℕ) (f : Frame)
      → log (st.store_frame s room i f).0 other
        ≡ (if room == other then written_at (log s room) i f else log s other)
  pub created :
      (s : S) (room other : ℕ) (m : StoredRoomMetadata)
      → log (st.create_room s room m).0 other ≡ log s other
  pub informed :
      (s : S) (room epoch other : ℕ) (group_info : List ℕ)
      → log (st.store_group_info s room epoch group_info).0 other ≡ log s other
