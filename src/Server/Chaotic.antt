-- ===== src/Server/Chaotic.antt =====
-- crates/lockframe-server/src/storage/chaotic.rs: a store that fails at random, in front of another. The
-- failure rate, a floating-point number between 0 and 1, stands as the test of a drawn number against it. The
-- count of operations is taken to stay below the end of usize.
use lockframe.Common.{
  ℕ, ◌+◌, ◌*◌, ◌%◌, ◌^◌, List, Bool, Option, none, some, if◌then◌else◌, Result, err,
}
use lockframe.Proto.Frame.{Frame}
use lockframe.Core.GroupState.{MlsGroupState}
use lockframe.Server.Storage.{Storage, StorageError, StoredRoomMetadata, io}

pub record ChaoticStorage (S : Type 0) : Type 0 where
  pub inner : S
  pub below_rate : ℕ → Bool
  pub rng : ℕ
  pub operation_count : ℕ

-- The state of the generator after a draw.
unfoldable pub next : ℕ → ℕ
next state = (1664525 * state % 2 ^ 64 + 1013904223) % 2 ^ 64 % 2 ^ 32

unfoldable pub with_seed : {S : Type 0} → S → (ℕ → Bool) → ℕ → ChaoticStorage S
with_seed inner below_rate seed = record {
  inner = inner;
  below_rate = below_rate;
  rng = seed;
  operation_count = 0;
}

unfoldable pub new : {S : Type 0} → S → (ℕ → Bool) → ChaoticStorage S
new inner below_rate = with_seed inner below_rate 1311768467463790320

module _ {S : Type 0} (st : Storage S) where
  -- The operation is counted, and a number drawn.
  unfoldable pub drawn : ChaoticStorage S → ChaoticStorage S
  drawn c = record c { operation_count = c.operation_count + 1; rng = next c.rng }

  abbrev fails : ChaoticStorage S → Bool
  fails c = c.below_rate (next c.rng)

  -- A reading operation, and a writing one.
  injected_read :
      {A : Type 0}
      → ChaoticStorage S
      → Result StorageError A
      → ChaoticStorage S × Result StorageError A
  injected_read c result = (drawn c, if fails c then err io else result)

  injected_write :
      ChaoticStorage S
      → S × Result StorageError (Unit {0})
      → ChaoticStorage S × Result StorageError (Unit {0})
  injected_write c (inner, result) =
      if fails c then (drawn c, err io) else (record (drawn c) { inner = inner }, result)

  unfoldable pub store_frame :
      ChaoticStorage S → ℕ → ℕ → Frame → ChaoticStorage S × Result StorageError (Unit {0})
  unfolding injected_write
  store_frame c room_id log_index frame =
      injected_write c (st.store_frame c.inner room_id log_index frame)

  unfoldable pub latest_log_index :
      ChaoticStorage S → ℕ → ChaoticStorage S × Result StorageError (Option ℕ)
  unfolding injected_read
  latest_log_index c room_id = injected_read c (st.latest_log_index c.inner room_id)

  -- `none` is a panic of the inner store, which an injected failure does not reach.
  unfoldable pub load_frames :
      ChaoticStorage S → ℕ → ℕ → ℕ → Option (ChaoticStorage S × Result StorageError (List Frame))
  unfolding injected_read
  load_frames c room_id from limit =
      if fails c then some (drawn c, err io) else elim (st.load_frames c.inner room_id from limit) [
        | none ↦ none
        | some result ↦ some (injected_read c result)
      ]

  unfoldable pub store_mls_state :
      ChaoticStorage S → ℕ → MlsGroupState → ChaoticStorage S × Result StorageError (Unit {0})
  unfolding injected_write
  store_mls_state c room_id state = injected_write c (st.store_mls_state c.inner room_id state)

  unfoldable pub load_mls_state :
      ChaoticStorage S → ℕ → ChaoticStorage S × Result StorageError (Option MlsGroupState)
  unfolding injected_read
  load_mls_state c room_id = injected_read c (st.load_mls_state c.inner room_id)

  unfoldable pub store_group_info :
      ChaoticStorage S → ℕ → ℕ → List ℕ → ChaoticStorage S × Result StorageError (Unit {0})
  unfolding injected_write
  store_group_info c room_id epoch group_info =
      injected_write c (st.store_group_info c.inner room_id epoch group_info)

  unfoldable pub load_group_info :
      ChaoticStorage S → ℕ → ChaoticStorage S × Result StorageError (Option (ℕ × List ℕ))
  unfolding injected_read
  load_group_info c room_id = injected_read c (st.load_group_info c.inner room_id)

  unfoldable pub list_rooms : ChaoticStorage S → ChaoticStorage S × Result StorageError (List ℕ)
  unfolding injected_read
  list_rooms c = injected_read c (st.list_rooms c.inner)

  unfoldable pub create_room :
      ChaoticStorage S → ℕ → StoredRoomMetadata → ChaoticStorage S × Result StorageError (Unit {0})
  unfolding injected_write
  create_room c room_id metadata = injected_write c (st.create_room c.inner room_id metadata)

  unfoldable pub load_room_metadata :
      ChaoticStorage S → ℕ → ChaoticStorage S × Result StorageError (Option StoredRoomMetadata)
  unfolding injected_read
  load_room_metadata c room_id = injected_read c (st.load_room_metadata c.inner room_id)
