-- ===== src/Server/Memory/Logs.antt =====
-- The in-memory store keeps a log per room (crates/lockframe-server/src/storage/memory.rs).
use lockframe.Common.{
  false, ℕ, zero, suc, ap, sym, ◌∙◌, take-nil, ◌+◌, ◌-◌, ◌^◌, ◌≤◌, ◌<◌, min, ◌≡◌, refl, List, [],
  ◌∷◌, ◌++◌, some, ltb, leb, le_of_ltb, Bool-cases, inl, inr, drop_of_length-le, length-drop, ◌==◌,
  if◌then◌else◌, ok, length, take, drop, lookup, lookup-insert, arith,
}
use lockframe.Proto.Frame.{Frame}
use lockframe.Server.Storage.{StoredRoomMetadata, last_index, KeepsLogs, written_at, write_result}
use lockframe.Server.Memory.{
  MemoryStorage, memory, or_default, slice, store_frame, latest_log_index, load_frames, create_room,
  store_group_info,
}

-- The frames of a room, oldest first.
abbrev pub log : MemoryStorage → ℕ → List Frame
log m room = or_default (lookup room m.frames)

latest-log : (m : MemoryStorage) (room : ℕ) → latest_log_index m room ≡ ok (last_index (log m room))
unfolding latest_log_index
latest-log m room = ground arith

stored-log :
    (m : MemoryStorage) (room i : ℕ) (f : Frame)
    → (store_frame m room i f).1 ≡ write_result (log m room) i
unfolding store_frame
stored-log m room i f = ground arith

grows-log :
    (m : MemoryStorage) (room i other : ℕ) (f : Frame)
    → log (store_frame m room i f).0 other
      ≡ (if room == other then written_at (log m room) i f else log m other)
unfolding store_frame
grows-log m room i other f = ground (
  arith,
  lookup-insert room other (log m room) m.frames,
  lookup-insert room other (log m room ++ f ∷ []) m.frames,
)

created-log :
    (m : MemoryStorage) (room other : ℕ) (d : StoredRoomMetadata)
    → log (create_room m room d).0 other ≡ log m other
unfolding create_room
created-log m room other d = ground arith

informed-log :
    (m : MemoryStorage) (room epoch other : ℕ) (group_info : List ℕ)
    → log (store_group_info m room epoch group_info).0 other ≡ log m other
unfolding store_group_info
informed-log m room epoch other group_info = refl

-- The in-memory store implements the logs that the sequencer relies on.
pub memory-KeepsLogs : KeepsLogs memory log
memory-KeepsLogs = record {
  latest = latest-log;
  stored = stored-log;
  grows = grows-log;
  created = created-log;
  informed = informed-log;
}

take-min {ℓ} : {A : Type ℓ} (n : ℕ) (xs : List A) → take (min n (length xs)) xs ≡ take n xs
take-min n [] = take-nil (min n 0) ∙ sym (take-nil n)
take-min zero (x ∷ xs) =
    let e : min 0 (suc (length xs)) ≡ 0 = omega arith in ap (λ k. take k (x ∷ xs)) e
take-min (suc n) (x ∷ xs) =
    let e : min (suc n) (suc (length xs)) ≡ suc (min n (length xs)) = omega arith in
    rw e (ap (◌∷◌ x) (take-min n xs))

slice-log :
    (frames : List Frame) (start limit : ℕ)
    → start + limit < 2 ^ 64
    → slice frames start limit ≡ some (ok (take limit (drop start frames)))
unfolding slice
slice-log frames start limit fits =
    let below : leb (2 ^ 64) (start + limit) ≡ false = ground arith in
    elim (Bool-cases (ltb (length frames) start)) [
      | inl past ↦
          let le : length frames ≤ start = ground arith in
          rw (below, past, drop_of_length-le start frames le, take-nil limit)
      | inr within ↦
          let end : min (start + limit) (length frames) - start
              ≡ min limit (length (drop start frames)) =
            omega (arith, length-drop start frames, le_of_ltb _ _ within) in
          rw (below, within, end, take-min limit (drop start frames))
    ]

-- A range that does not pass the end of `usize` reads the frames of the log from the first index
-- on, at most as many as asked for.
pub load_frames-log :
    (m : MemoryStorage) (room from limit : ℕ) (frames : List Frame)
    → lookup room m.frames ≡ some frames
    → from + limit < 2 ^ 64
    → load_frames m room from limit ≡ some (ok (take limit (drop from frames)))
unfolding load_frames
load_frames-log m room from limit frames e fits =
    rw (e, load_frames) (slice-log frames from limit fits)
