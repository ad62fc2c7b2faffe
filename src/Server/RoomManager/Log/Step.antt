-- ===== src/Server/RoomManager/Log/Step.antt =====
-- What the server does with one frame (crates/lockframe-server/src/room_manager.rs, sequencer.rs and driver.rs).
use lockframe.Common.{
  ℕ, ◌+◌, ◌<◌, ◌≡◌, refl, ap, ◌∙◌, List, [], ◌∷◌, ◌++◌, true, false, some, Result-cases, Bool-cases,
  inl, inr, ◌==◌, ==_self, if◌then◌else◌, Result, ok, err, map_err, ◌>>=◌, length, lookup,
}
use lockframe.Proto.Opcode.{is_welcome}
use lockframe.Proto.Header.{opcode_enum}
use lockframe.Proto.Header
use lockframe.Proto.Frame.{Frame}
use lockframe.Server.Storage.{Storage, StorageError, conflict, KeepsLogs}
use lockframe.Server.Sequencer.{u64_max, validate_frame_structure, rebuild_frame_with_index}
use lockframe.Server.Sequencer
use lockframe.Server.Sequencer.Indices.{
  IsCurrent, sequenced_as, process_frame-invalid, process_frame-welcome, process_frame-sequenced,
}
use lockframe.Server.RoomManager.{
  RoomManager, has_room, process_frame, room_actions, sequencing, room_not_found,
}
use lockframe.Server.RoomManager.Log.{submit, on_stored}

module _ {S : Type 0} (st : Storage S) (log : S → ℕ → List Frame) (keeps : KeepsLogs st log) where
  -- What one frame does: it leaves the logs and the cache alone, or it is appended to its room's
  -- log, under the index that the log has room for next.
  pub data Effect (rm : RoomManager) (s : S) (f : Frame) (rm' : RoomManager) (s' : S) : Type 0 where
    unlogged :
        ((room : ℕ) → log s' room ≡ log s room)
        → rm'.sequencer ≡ rm.sequencer
        → Effect rm s f rm' s'
    appended :
        ((other : ℕ)
          → log s' other ≡ (
              if Header.room_id f.header == other
              then log s (Header.room_id f.header)
                ++ rebuild_frame_with_index f (length (log s (Header.room_id f.header))) ∷ []
              else log s other))
        → ((other : ℕ)
            → lookup other rm'.sequencer.rooms ≡ (
                if Header.room_id f.header == other
                then some (record { next_log_index = length (log s (Header.room_id f.header)) + 1 })
                else lookup other rm.sequencer.rooms))
        → Effect rm s f rm' s'

  pub process_frame_known :
      (rm : RoomManager) (s : S) (f : Frame) (now : ℕ)
      → has_room rm (Header.room_id f.header) ≡ true
      → process_frame st rm f now s ≡ (
        record rm { sequencer = (Sequencer.process_frame st rm.sequencer f s).0 },
        map_err sequencing (Sequencer.process_frame st rm.sequencer f s).1 >>= λ actions.
            ok (room_actions now actions),
      )
  unfolding process_frame
  process_frame_known rm s f now known = rw known

  process_frame_unknown :
      (rm : RoomManager) (s : S) (f : Frame) (now : ℕ)
      → has_room rm (Header.room_id f.header) ≡ false
      → process_frame st rm f now s ≡ (rm, err (room_not_found (Header.room_id f.header)))
  unfolding process_frame
  process_frame_unknown rm s f now unknown = rw unknown

  on_stored_ok :
      (rm : RoomManager) (room : ℕ) (p : S × Result StorageError (Unit {0}))
      → p.1 ≡ ok tt
      → on_stored st rm room p ≡ (rm, p.0)
  unfolding on_stored
  on_stored_ok rm room (s, ok _) e = refl
  on_stored_ok rm room (s, err x) e = cc

  -- The logs after the frame of a known room is stored at the end of its log.
  stored-appended :
      (rm : RoomManager) (s : S) (f : Frame) (now : ℕ)
      → let room = Header.room_id f.header in
        let n = length (log s room) in
        has_room rm room ≡ true
        → (Sequencer.process_frame st rm.sequencer f s).1 ≡ ok (sequenced_as room n f)
        → submit st rm s (f, now) ≡ (
          record rm { sequencer = (Sequencer.process_frame st rm.sequencer f s).0 },
          (st.store_frame s room n (rebuild_frame_with_index f n)).0,
        )
  unfolding submit room_actions
  stored-appended rm s f now known given =
      let room = Header.room_id f.header in
      let n = length (log s room) in
      let rm' = record rm { sequencer = (Sequencer.process_frame st rm.sequencer f s).0 } in
      let accepted : (st.store_frame s room n (rebuild_frame_with_index f n)).1 ≡ ok tt =
        keeps.stored s room n (rebuild_frame_with_index f n)
        ∙ ap (λ b. if b then ok tt else err (conflict n n)) (==_self n) in
      rw (process_frame_known rm s f now known, given)
        (rw
          (on_stored_ok rm' room (st.store_frame s room n (rebuild_frame_with_index f n)) accepted))

  pub log-stored :
      (s : S) (f : Frame) (other : ℕ)
      → let room = Header.room_id f.header in
        let f' = rebuild_frame_with_index f (length (log s room)) in
        log (st.store_frame s room (length (log s room)) f').0 other
        ≡ (if room == other then log s room ++ f' ∷ [] else log s other)
  log-stored s f other =
      let room = Header.room_id f.header in
      let n = length (log s room) in
      let f' = rebuild_frame_with_index f n in
      keeps.grows s room n other f'
      ∙ ap
          (λ b.
            if room == other
            then (if b then log s room ++ f' ∷ [] else log s room)
            else log s other)
          (==_self n)

  pub submit-Effect :
      (rm : RoomManager) (s : S) (f : Frame) (now : ℕ)
      → IsCurrent log rm.sequencer s
      → ((room : ℕ) → length (log s room) < u64_max)
      → let (rm', s') = submit st rm s (f, now) in Effect rm s f rm' s'
  unfolding submit room_actions
  submit-Effect rm s f now current short =
      elim (Bool-cases (has_room rm (Header.room_id f.header))) [
        | inr unknown ↦
            rw (process_frame_unknown rm s f now unknown, submit) (unlogged (λ room. refl) refl)
        | inl known ↦ elim (Result-cases (validate_frame_structure f)) [
          | inr (e, invalid) ↦
              rw
                (
                  process_frame_known rm s f now known,
                  process_frame-invalid st log keeps rm.sequencer s f e invalid,
                )
                (unlogged (λ room. refl) refl)
          | inl (u, valid) ↦ elim (Bool-cases (is_welcome (opcode_enum f.header))) [
            | inl welcome ↦
                rw
                  (
                    process_frame_known rm s f now known,
                    process_frame-welcome st log keeps rm.sequencer s f valid welcome,
                  )
                  (unlogged (λ room. refl) refl)
            | inr plain ↦
                let (given, moved) =
                  process_frame-sequenced st log keeps rm.sequencer s f current valid plain
                    (short (Header.room_id f.header)) in
                rw (stored-appended rm s f now known given) (appended (log-stored s f) moved)
          ]
        ]
      ]
