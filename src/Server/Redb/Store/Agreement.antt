-- ===== src/Server/Redb/Store/Agreement.antt =====
-- The durable store and the in-memory one agree on the logs
-- (crates/lockframe-server/src/storage/redb.rs and memory.rs).
use mathlib.Core.List.{append-nil}
use lockframe.Common.{
  ℕ, zero, suc, ◌+◌, ◌-◌, ◌^◌, ◌<◌, ◌≤◌, ◌≡◌, refl, sym, ap, ◌∙◌, List, [], ◌∷◌, ◌++◌, map, true,
  false, Option, none, some, leb, ◌==◌, ==_iff, if◌then◌else◌, Result, ok, length, length-append,
  length-drop, drop, take, All, arith, is_empty, Bool-cases, inl, inr, drop_of_length-le, ltb_of_le,
  ==_self,
}
use lockframe.Proto.Header.{max_payload_size}
use lockframe.Proto.Frame.{Frame, encode, decode}
use lockframe.Proto.Frame.Wire.{IsWellFormed, decode-encode}
use lockframe.Proto.Payload.Coder.{Codec}
use lockframe.Core.GroupState.{MlsGroupState}
use lockframe.Server.Storage.{StorageError, StoredRoomMetadata, last_index}
use lockframe.Server.Memory.{MemoryStorage}
use lockframe.Server.Memory
use lockframe.Server.Memory.Logs.{log, memory-KeepsLogs}
use lockframe.Server.Sequencer.{u64_max}
use lockframe.Server.Redb.{encode_frame_key}
use lockframe.Server.Redb.Order.{decode_frame_key-encode_frame_key}
use lockframe.Server.Redb.Store.{
  Table, Entry, Database, frames, latest_of, latest_in, next_index, collect, collect_from,
  stored_at, store_next, store_frame, compute_latest_log_index, latest_log_index, load_frames,
}
use lockframe.Server.Redb.Store.Logs.{
  IsOrderedTable, ordered_insert, within, wire, entries, room_bound, entries-snoc, within-room,
  ordered_insert_last, latest_of-entries,
}

ok_injective : {E A : Type 0} (x y : A) → ◌≡◌ {A = Result E A} (ok x) (ok y) → x ≡ y
ok_injective x y e = cc

wire-encode : (f : Frame) → IsWellFormed f → encode f ≡ ok (wire f)
unfolding encode
wire-encode f w =
    rw (
      ltb_of_le max_payload_size (length f.payload)
        (omega (arith, w.payload, w.valid.payload_size)))

decode-wire : (f : Frame) → IsWellFormed f → decode (wire f) ≡ ok f
decode-wire f w =
    let (bytes, e, back) = decode-encode f [] w in
    let same : wire f ≡ bytes = ok_injective (wire f) bytes (sym (wire-encode f w) ∙ e) in
    rw same (ap decode (sym (append-nil bytes)) ∙ back)

drop-snoc_within :
    (from : ℕ) (fs : List Frame) (f : Frame)
    → from ≤ length fs
    → drop from (fs ++ f ∷ []) ≡ drop from fs ++ f ∷ []
drop-snoc_within zero fs f h = refl
drop-snoc_within (suc n) [] f h = absurd (omega arith)
drop-snoc_within (suc n) (g ∷ fs) f h = drop-snoc_within n fs f (omega arith)

All-drop : (P : Frame → Type 0) (n : ℕ) (fs : List Frame) → All P fs → All P (drop n fs)
All-drop P zero fs h = h
All-drop P (suc n) [] h = tt
All-drop P (suc n) (f ∷ fs) (_, h) = All-drop P n fs h

last_of :
    (fs : List Frame)
    → ◌≡◌ {A = Result StorageError (Option ℕ)}
        (ok (if is_empty fs then none else some (0 + length fs - 1)))
        (ok (last_index fs))
last_of [] = refl
last_of (f ∷ fs) = ap (λ k. ok (some k)) (omega arith)

next_last : (fs : List Frame) → length fs < u64_max → next_index (last_index fs) ≡ some (length fs)
unfolding next_index
next_last [] short = refl
next_last (f ∷ fs) short = ground arith

-- A range of at most so many frames, decoded.
collect-entries :
    (room i limit : ℕ) (fs : List Frame)
    → room < room_bound
    → i + length fs ≤ 2 ^ 64
    → All IsWellFormed fs
    → collect room limit (map some (entries room i fs)) ≡ ok (take limit fs)
unfolding collect
collect-entries room i zero [] p q w = refl
collect-entries room i (suc n) [] p q w = refl
collect-entries room i zero (f ∷ fs) p q w = refl
collect-entries room i (suc n) (f ∷ fs) p q (wf, w) =
    let e : suc n - 1 ≡ n = omega arith in
    let more : (suc n == 0) ≡ false = ground arith in
    rw
      (
        decode_frame_key-encode_frame_key room i p (omega arith),
        ==_self room,
        decode-wire f wf,
        e,
        more,
        collect-entries room (suc i) n fs p (omega arith) w,
      )
      refl

lt_of_leb : (a b : ℕ) → leb a b ≡ false → b < a
lt_of_leb a b h = ground arith

at_end :
    (room from : ℕ) (f : Frame) (fs : List Frame)
    → room < room_bound
    → length fs ≤ u64_max
    → from ≤ length fs
    → ordered_insert (encode_frame_key room (length fs)) (wire f) (entries room from (drop from fs))
      ≡ entries room from (drop from (fs ++ f ∷ []))
at_end room from f fs p short le =
    let e : from + length (drop from fs) ≡ length fs = omega (arith, length-drop from fs, le) in
    let put : ordered_insert (encode_frame_key room (length fs)) (wire f)
          (entries room from (drop from fs))
        ≡ entries room from (drop from fs) ++ (encode_frame_key room (length fs), wire f) ∷ [] =
      rw e at (ordered_insert_last room from (drop from fs) (wire f) p (omega (arith, e, short))) in
    let snoc : entries room from (drop from fs ++ f ∷ [])
        ≡ entries room from (drop from fs) ++ (encode_frame_key room (length fs), wire f) ∷ [] =
      rw e at (entries-snoc room from (drop from fs) f) in
    put ∙ sym snoc ∙ ap (entries room from) (sym (drop-snoc_within from fs f le))

module _ {D : Type 0} (db : Database D) (view : D → Table → List ℕ → List ℕ → List Entry)
    (works : IsOrderedTable db view) (metadata_coder : Codec StoredRoomMetadata)
    (state_coder : Codec MlsGroupState) where
  -- The table of frames of the one store has, for each room and index, the log of the other from the index on.
  pub record Agrees (d : D) (m : MemoryStorage) : Type 0 where
    pub frames_of :
        (room from : ℕ)
        → room < room_bound
        → from ≤ u64_max
        → view d frames (encode_frame_key room from) (encode_frame_key room u64_max)
          ≡ entries room from (drop from (log m room))

  -- The answers about the end of a log are the same.
  latest_log_index-Agrees :
      (d : D) (m : MemoryStorage) (room : ℕ)
      → Agrees d m
      → room < room_bound
      → length (log m room) ≤ 2 ^ 64
      → latest_log_index db metadata_coder state_coder d room ≡ Memory.latest_log_index m room
  unfolding latest_log_index compute_latest_log_index latest_in
  latest_log_index-Agrees d m room a p short =
      let found : latest_of none (map some (entries room 0 (log m room)))
          ≡ ok (last_index (log m room)) =
        latest_of-entries none room 0 (log m room) p (omega (arith, short))
        ∙ last_of (log m room) in
      rw
        (
          works.reads d frames (encode_frame_key room 0) (encode_frame_key room u64_max),
          a.frames_of room 0 p (omega arith),
        )
        (found ∙ sym (memory-KeepsLogs.latest m room))

  -- Where the stores agree, the room's log is of well-formed frames and within u64, and the memory holds as many
  -- frames as are asked for, a read gives the frames of the in-memory log from the first index on, at
  -- most as many as asked for.
  pub load_frames-Agrees :
      (d : D) (m : MemoryStorage) (capacity room from limit : ℕ)
      → Agrees d m
      → room < room_bound
      → from ≤ u64_max
      → limit ≤ capacity
      → length (log m room) ≤ 2 ^ 64
      → All IsWellFormed (log m room)
      → load_frames db metadata_coder state_coder capacity d room from limit
        ≡ some (ok (take limit (drop from (log m room))))
  unfolding load_frames collect_from
  load_frames-Agrees d m capacity room from limit a p q fits short w =
      rw
        (
          ltb_of_le capacity limit fits,
          works.reads d frames (encode_frame_key room from) (encode_frame_key room u64_max),
          a.frames_of room from p q,
        )
        (ap some (
          collect-entries room from limit (drop from (log m room)) p
            (omega (arith, q, short, length-drop from (log m room)))
            (All-drop IsWellFormed from (log m room) w)))

  -- The log of a room with one frame more.
  view_after :
      (d : D) (m : MemoryStorage) (room : ℕ) (f : Frame) (r from : ℕ)
      → Agrees d m
      → room < room_bound
      → r < room_bound
      → from ≤ u64_max
      → length (log m room) < u64_max
      → (if within
            (encode_frame_key r from)
            (encode_frame_key r u64_max)
            (encode_frame_key room (length (log m room)))
          then ordered_insert
              (encode_frame_key room (length (log m room)))
              (wire f)
              (view d frames (encode_frame_key r from) (encode_frame_key r u64_max))
          else view d frames (encode_frame_key r from) (encode_frame_key r u64_max))
        ≡ entries r from (drop from (if room == r then log m room ++ f ∷ [] else log m r))
  view_after d m room f r from a p p' q short =
      let n = length (log m room) in
      rw (within-room room r from n p p' q (omega arith), a.frames_of r from p' q)
        (elim (Bool-cases (room == r)) [
          | inr elsewhere ↦ rw elsewhere refl
          | inl here ↦
              let same_room : room ≡ r = (==_iff room r).0 here in
              rw (here, ← same_room)
                (elim (Bool-cases (leb from n)) [
                  | inl inside ↦
                      rw inside
                        (at_end room from f (log m room) p (omega (arith, short)) (ground arith))
                  | inr past ↦
                      rw
                        (
                          past,
                          drop_of_length-le from (log m room) (ground arith),
                          drop_of_length-le from (log m room ++ f ∷ []) (
                              omega (
                                arith,
                                length-append (log m room) (f ∷ []),
                                lt_of_leb from n past,
                              )),
                        )
                        refl
                ])
        ])

  latest_found :
      (d : D) (m : MemoryStorage) (room : ℕ)
      → Agrees d m
      → room < room_bound
      → length (log m room) ≤ 2 ^ 64
      → compute_latest_log_index db metadata_coder state_coder d room ≡ ok (last_index (log m room))
  unfolding compute_latest_log_index latest_in
  latest_found d m room a p short =
      rw
        (
          works.reads d frames (encode_frame_key room 0) (encode_frame_key room u64_max),
          a.frames_of room 0 p (omega arith),
        )
        (latest_of-entries none room 0 (log m room) p (omega (arith, short)) ∙ last_of (log m room))

  store_next_lem :
      (d : D) (m : MemoryStorage) (room i : ℕ) (f : Frame)
      → Agrees d m
      → room < room_bound
      → length (log m room) < u64_max
      → store_frame db metadata_coder state_coder d room i f
        ≡ some (stored_at db metadata_coder state_coder d room i f (length (log m room)))
  unfolding store_frame store_next
  store_next_lem d m room i f a p short =
      rw
        (latest_found d m room a p (omega (arith, short)), next_last (log m room) short, store_next)
        refl

  logs_after :
      (m : MemoryStorage) (room i r : ℕ) (f : Frame)
      → (i == length (log m room)) ≡ false
      → log (Memory.store_frame m room i f).0 r ≡ log m r
  logs_after m room i r f other =
      memory-KeepsLogs.grows m room i r f ∙ rw other (ground (arith, ==_iff room r))

  log_after :
      (m : MemoryStorage) (room i r : ℕ) (f : Frame)
      → (i == length (log m room)) ≡ true
      → log (Memory.store_frame m room i f).0 r
        ≡ (if room == r then log m room ++ f ∷ [] else log m r)
  log_after m room i r f next = memory-KeepsLogs.grows m room i r f ∙ rw next refl

  -- Where the stores agree and the room's log is below the end of u64, a write of a well-formed
  -- frame, at any index, gets the same answer from both stores, and leaves them in agreement.
  pub store_frame-Agrees :
      (d : D) (m : MemoryStorage) (room i : ℕ) (f : Frame)
      → Agrees d m
      → room < room_bound
      → length (log m room) < u64_max
      → IsWellFormed f
      → (d' : D) × (store_frame db metadata_coder state_coder d room i f
          ≡ some (d', (Memory.store_frame m room i f).1))
        × Agrees d' (Memory.store_frame m room i f).0
  unfolding stored_at
  store_frame-Agrees d m room i f a p short w =
      let n = length (log m room) in
      elim (Bool-cases (i == n)) [
        | inr other ↦ (
          d,
          store_next_lem d m room i f a p short
              ∙ rw (other, stored_at)
                  (ap (λ r. some (d, r))
                    (sym (memory-KeepsLogs.stored m room i f ∙ rw other refl))),
          record {
            frames_of = λ r from p' q.
                a.frames_of r from p' q
                ∙ ap (λ l. entries r from (drop from l)) (sym (logs_after m room i r f other));
          },
        )
        | inl next ↦
            let here : i ≡ n = (==_iff i n).0 next in
            let (d', put, after) = works.puts d frames (encode_frame_key room i) (wire f) in
            (
              d',
              store_next_lem d m room i f a p short
                  ∙ rw (next, wire-encode f w, put, stored_at)
                      (ap (λ r. some (d', r))
                        (sym (memory-KeepsLogs.stored m room i f ∙ rw next refl))),
              record {
                frames_of = λ r from p' q.
                    after frames (encode_frame_key r from) (encode_frame_key r u64_max)
                    ∙ rw here (view_after d m room f r from a p p' q short)
                    ∙ ap (λ l. entries r from (drop from l)) (sym (log_after m room i r f next));
              },
            )
      ]
