-- ===== src/Server/Redb/Store.antt =====
-- crates/lockframe-server/src/storage/redb.rs: the durable store over the tables of the `redb`
-- database, which is a parameter, as are the CBOR coders.
pub mod Logs
pub mod Agreement
use lockframe.Common.{
  ℕ, ◌+◌, ◌-◌, ◌≡◌, List, [], ◌∷◌, ◌++◌, map, Bool, true, false, not, ◌&&◌, Option, none, some, ltb,
  leb, ◌==◌, if◌then◌else◌, Result, ok, err, ◌>>=◌, map_err, ok_or, length, take, drop, to_be_bytes,
  from_be_bytes, is_some,
}
use lockframe.Proto.Errors.{ProtocolError}
use lockframe.Proto.Frame.{Frame}
use lockframe.Proto.Frame
use lockframe.Proto.Payload.Coder.{Codec}
use lockframe.Core.GroupState.{MlsGroupState}
use lockframe.Server.Storage.{
  Storage, StorageError, conflict, serialization, io, StoredRoomMetadata,
}
use lockframe.Server.Sequencer.{u64_max}
use lockframe.Server.Redb.{encode_frame_key, decode_frame_key, encode_room_key}

pub data Table : Type 0 where
  frames mls_state group_info rooms : Table

abbrev pub Entry : Type 0
Entry = List ℕ × List ℕ

-- The database: a read or write transaction on one table each. `none` is an I/O error, which may
-- also turn up at a single entry of a range. `put` inserts and commits.
pub record Database (D : Type 0) : Type 0 where
  pub range : D → Table → List ℕ → List ℕ → Option (List (Option Entry))
  pub iter : D → Table → Option (List (Option Entry))
  pub get : D → Table → List ℕ → Option (Option (List ℕ))
  pub put : D → Table → List ℕ → List ℕ → Option D

-- `latest` at the end of the loop over the entries.
pub latest_of : Option ℕ → List (Option Entry) → Result StorageError (Option ℕ)
latest_of latest [] = ok latest
latest_of latest (none ∷ results) = err io
latest_of latest (some (key, value) ∷ results) = latest_of (some (decode_frame_key key).1) results

latest_in : Option (List (Option Entry)) → Result StorageError (Option ℕ)
unfolding latest_of
latest_in none = err io
latest_in (some results) = latest_of none results

-- `latest + 1` panics at the end of u64: `none`.
next_index : Option ℕ → Option ℕ
next_index none = some 0
next_index (some latest) = if ltb latest u64_max then some (latest + 1) else none

-- What the loop does after the frame of an entry is decoded.
abbrev decoded : Result ProtocolError Frame → Result StorageError Frame
decoded frame = map_err (λ e. serialization) frame

-- The loop of `load_frames`, with the frames that may still be read.
collect : ℕ → ℕ → List (Option Entry) → Result StorageError (List Frame)
collect room_id limit [] = ok []
collect room_id limit (result ∷ results) =
    let rest = collect room_id (limit - 1) results in
    if limit == 0 then ok [] else elim result [
      | none ↦ err io
      | some (key, value) ↦
          if not ((decode_frame_key key).0 == room_id)
          then ok []
          else (decoded (Frame.decode value) >>= λ frame. rest >>= λ more. ok (frame ∷ more))
    ]

collect_from : ℕ → ℕ → Option (List (Option Entry)) → Result StorageError (List Frame)
unfolding collect
collect_from room_id limit none = err io
collect_from room_id limit (some results) = collect room_id limit results

read_value : {T : Type 0} → Codec T → Option (Option (List ℕ)) → Result StorageError (Option T)
read_value codec none = err io
read_value codec (some none) = ok none
read_value codec (some (some value)) =
    ok_or (codec.from_reader value) serialization >>= λ x. ok (some x)

-- `bytes.get(..8)`, and the rest of the bytes.
read_group_info : Option (Option (List ℕ)) → Result StorageError (Option (ℕ × List ℕ))
read_group_info none = err io
read_group_info (some none) = ok none
read_group_info (some (some bytes)) =
    if ltb (length bytes) 8
    then err serialization
    else ok (some (from_be_bytes (take 8 bytes), drop 8 bytes))

-- The keys of the table of rooms have 16 bytes.
room_ids : List (Option Entry) → Result StorageError (List ℕ)
room_ids [] = ok []
room_ids (none ∷ results) = err io
room_ids (some (key, value) ∷ results) = room_ids results >>= λ rest. ok (from_be_bytes key ∷ rest)

all_rooms : Option (List (Option Entry)) → Result StorageError (List ℕ)
unfolding room_ids
all_rooms none = err io
all_rooms (some results) = room_ids results

-- A change that was made, or an error that leaves the contents as they were.
abbrev committed : {D : Type 0} → D → Option D → D × Result StorageError (Unit {0})
committed d none = (d, err io)
committed d (some d') = (d', ok tt)

abbrev written :
    {D : Type 0}
    → D
    → Result StorageError (List ℕ)
    → (List ℕ → Option D)
    → D × Result StorageError (Unit {0})
written d (err e) put = (d, err e)
written d (ok value) put = committed d (put value)

module _ {D : Type 0} (db : Database D) (metadata_coder : Codec StoredRoomMetadata)
    (state_coder : Codec MlsGroupState) where
  unfoldable pub compute_latest_log_index : D → ℕ → Result StorageError (Option ℕ)
  unfolding latest_in
  compute_latest_log_index d room_id =
      latest_in (db.range d frames (encode_frame_key room_id 0) (encode_frame_key room_id u64_max))

  stored_at : D → ℕ → ℕ → Frame → ℕ → D × Result StorageError (Unit {0})
  stored_at d room_id log_index frame expected =
      if not (log_index == expected)
      then (d, err (conflict expected log_index))
      else written d (map_err (λ e. serialization) (Frame.encode frame))
          (db.put d frames (encode_frame_key room_id log_index))

  store_next :
      D
      → ℕ
      → ℕ
      → Frame
      → Result StorageError (Option ℕ)
      → Option (D × Result StorageError (Unit {0}))
  unfolding stored_at next_index
  store_next d room_id log_index frame (err e) = some (d, err e)
  store_next d room_id log_index frame (ok latest) = elim (next_index latest) [
    | none ↦ none
    | some expected ↦ some (stored_at d room_id log_index frame expected)
  ]

  -- `none` is the panic of `compute_next_log_index`.
  unfoldable pub store_frame : D → ℕ → ℕ → Frame → Option (D × Result StorageError (Unit {0}))
  unfolding store_next
  store_frame d room_id log_index frame =
      store_next d room_id log_index frame (compute_latest_log_index d room_id)

  unfoldable pub latest_log_index : D → ℕ → Result StorageError (Option ℕ)
  latest_log_index d room_id = compute_latest_log_index d room_id

  -- `capacity` is the number of frames for which `Vec::with_capacity` succeeds; `none` is its
  -- failure.
  unfoldable pub load_frames : ℕ → D → ℕ → ℕ → ℕ → Option (Result StorageError (List Frame))
  unfolding collect_from
  load_frames capacity d room_id from limit =
      if ltb capacity limit
      then none
      else some (
          collect_from room_id limit
            (db.range d frames (encode_frame_key room_id from) (encode_frame_key room_id u64_max)))

  unfoldable pub store_mls_state : D → ℕ → MlsGroupState → D × Result StorageError (Unit {0})
  store_mls_state d room_id state =
      written d (ok_or (state_coder.into_writer state) serialization)
        (db.put d mls_state (encode_room_key room_id))

  unfoldable pub load_mls_state : D → ℕ → Result StorageError (Option MlsGroupState)
  unfolding read_value
  load_mls_state d room_id = read_value state_coder (db.get d mls_state (encode_room_key room_id))

  unfoldable pub store_group_info : D → ℕ → ℕ → List ℕ → D × Result StorageError (Unit {0})
  store_group_info d room_id epoch bytes =
      committed d (db.put d group_info (encode_room_key room_id) (to_be_bytes 8 epoch ++ bytes))

  unfoldable pub load_group_info : D → ℕ → Result StorageError (Option (ℕ × List ℕ))
  unfolding read_group_info
  load_group_info d room_id = read_group_info (db.get d group_info (encode_room_key room_id))

  unfoldable pub list_rooms : D → Result StorageError (List ℕ)
  unfolding all_rooms
  list_rooms d = all_rooms (db.iter d rooms)

  create_if_absent :
      D → ℕ → StoredRoomMetadata → Option (Option (List ℕ)) → D × Result StorageError (Unit {0})
  create_if_absent d room_id metadata none = (d, err io)
  create_if_absent d room_id metadata (some (some value)) = (d, ok tt)
  create_if_absent d room_id metadata (some none) =
      written d (ok_or (metadata_coder.into_writer metadata) serialization)
        (db.put d rooms (encode_room_key room_id))

  -- A room that exists is not overwritten.
  unfoldable pub create_room : D → ℕ → StoredRoomMetadata → D × Result StorageError (Unit {0})
  unfolding create_if_absent
  create_room d room_id metadata =
      create_if_absent d room_id metadata (db.get d rooms (encode_room_key room_id))

  unfoldable pub load_room_metadata : D → ℕ → Result StorageError (Option StoredRoomMetadata)
  unfolding read_value
  load_room_metadata d room_id =
      read_value metadata_coder (db.get d rooms (encode_room_key room_id))
