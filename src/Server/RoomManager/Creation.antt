-- ===== src/Server/RoomManager/Creation.antt =====
-- Creating and recovering rooms leaves the order of frames as it is
-- (crates/lockframe-server/src/room_manager.rs).
use lockframe.Common.{
  ℕ, ◌^◌, ◌<◌, ◌≡◌, refl, ap, ◌∙◌, List, Bool-cases, Option-cases, Result-cases, inl, inr, length,
  contains_key, Result, ok, err,
}
use lockframe.Proto.Frame.{Frame}
use lockframe.Server.Storage.{Storage, StorageError, StoredRoomMetadata, KeepsLogs}
use lockframe.Server.Sequencer.Indices.{IsCurrent, initialize_room-IsCurrent}
use lockframe.Server.RoomManager.{
  RoomManager, has_room, recorded, create_room, recovered, recover_room,
}

module _ {S : Type 0} (st : Storage S) where
  recorded_kept :
      (rm : RoomManager) (room : ℕ) (m : StoredRoomMetadata)
      (p : S × Result StorageError (Unit {0}))
      → ((recorded st rm room m p).0.sequencer ≡ rm.sequencer) × ((recorded st rm room m p).1 ≡ p.0)
  unfolding recorded
  recorded_kept rm room m (s, err e) = (refl, refl)
  recorded_kept rm room m (s, ok _) = (refl, refl)

  module _ (log : S → ℕ → List Frame) (keeps : KeepsLogs st log) where
    pub create_room_kept :
        (rm : RoomManager) (room creator clock : ℕ) (s : S)
        → let after = create_room st rm room creator clock s in
          (after.0.sequencer ≡ rm.sequencer) × ((other : ℕ) → log after.1 other ≡ log s other)
    unfolding create_room
    create_room_kept rm room creator clock s = elim (Bool-cases (has_room rm room)) [
      | inl old ↦ rw old (refl, λ other. refl)
      | inr new ↦
          let m : StoredRoomMetadata = record { creator = creator; created_at_secs = clock } in
          let (kept, stored) = recorded_kept rm room m (st.create_room s room m) in
          rw new (kept, λ other. ap (λ t. log t other) stored ∙ keeps.created s room other m)
    ]

    pub recover_room-IsCurrent :
        (rm : RoomManager) (room : ℕ) (s : S)
        → length (log s room) < 2 ^ 64
        → IsCurrent log rm.sequencer s
        → IsCurrent log (recover_room st rm room s).0.sequencer s
    unfolding recover_room recovered
    recover_room-IsCurrent rm room s short i =
        elim (Bool-cases (contains_key room rm.room_metadata)) [
          | inl old ↦ rw old i
          | inr new ↦ elim (Result-cases (st.load_room_metadata s room)) [
            | inr (e, bad) ↦ rw (new, bad, recover_room) i
            | inl (found, good) ↦ elim (Option-cases found) [
              | inl missing ↦ rw (new, good, missing, recover_room) i
              | inr (m, here) ↦
                  rw (new, good, here, recover_room)
                    (initialize_room-IsCurrent st log keeps rm.sequencer room s short i)
            ]
          ]
        ]
