-- ===== src/Server/RoomManager/Sync.antt =====
-- What a sync request answers over the in-memory store (`handle_sync_request` in
-- crates/lockframe-server/src/room_manager.rs).
use lockframe.Common.{
  Option, Result, err, Option-cases, Bool-cases, inl, inr, none, ℕ, zero, suc, ◌+◌, ◌-◌, ◌^◌, ◌≤◌,
  ◌<◌, ◌≡◌, refl, ◌==◌, if◌then◌else◌, List, [], ◌∷◌, ◌++◌, true, some, ok, ltb, ltb_of_le, length,
  take, drop, length-take, length-drop, All, lookup, arith,
}
use lockframe.Proto.Header.{max_payload_size, to_bytes}
use lockframe.Proto.Frame.{Frame, encode}
use lockframe.Server.Storage.{last_index, Storage, StorageError}
use lockframe.Server.Memory.{MemoryStorage, memory}
use lockframe.Server.Memory.Logs.{log, load_frames-log, memory-KeepsLogs}
use lockframe.Server.RoomManager.{
  RoomManager, RoomAction, RoomError, send_sync_response, has_room, encode_all, last_loaded,
  has_more_after, sync_response, handle_sync_request,
}

-- The bytes of frames.
abbrev pub wires : List Frame → List (List ℕ)
wires [] = []
wires (f ∷ frames) = (to_bytes f.header ++ f.payload) ∷ wires frames

abbrev pub Fits : Frame → Type 0
Fits f = length f.payload ≤ max_payload_size

take-Fits : (n : ℕ) (frames : List Frame) → All Fits frames → All Fits (take n frames)
take-Fits zero frames h = tt
take-Fits (suc n) [] h = tt
take-Fits (suc n) (f ∷ frames) (fits, h) = (fits, take-Fits n frames h)

drop-Fits : (n : ℕ) (frames : List Frame) → All Fits frames → All Fits (drop n frames)
drop-Fits zero frames h = h
drop-Fits (suc n) [] h = tt
drop-Fits (suc n) (f ∷ frames) (fits, h) = drop-Fits n frames h

encode_all-wires : (frames : List Frame) → All Fits frames → encode_all frames ≡ some (wires frames)
unfolding encode_all encode
encode_all-wires [] h = refl
encode_all-wires (f ∷ frames) (fits, h) =
    rw (ltb_of_le max_payload_size (length f.payload) fits, encode_all, encode_all-wires frames h)
      refl

-- The index that the log is compared with: the end of the range, or 1 for the empty range at the
-- start of the log.
abbrev pub range_end : ℕ → ℕ → ℕ
range_end from limit = if from + limit == 0 then 1 else from + limit

-- The index before the end of a range, of which `count` frames were loaded.
last-wires :
    (from count limit : ℕ)
    → count ≤ limit
    → from + limit < 2 ^ 64
    → last_loaded from count ≡ some (from + count - 1)
unfolding last_loaded
last-wires from zero limit small fits = ground arith
last-wires from (suc n) limit small fits = ground arith

has_more-wires :
    (frames : List Frame) (from limit : ℕ)
    → has_more_after (from + length (take limit (drop from frames)) - 1) (last_index frames)
      ≡ ltb (range_end from limit) (length frames)
unfolding has_more_after
has_more-wires [] from limit = ground arith
has_more-wires (f ∷ frames) from limit =
    ground (arith, length-take limit (drop from (f ∷ frames)), length-drop from (f ∷ frames))

-- A sync request over the in-memory store for a known room with stored frames, which keep to the
-- payload limit, and for a range within `usize`: the answer has the bytes of the frames of the log
-- from the first index on, at most as many as asked for, and says that there are more exactly if the
-- log goes on behind the range; but for the empty range at the start of the log it says so only if
-- there are two frames.
pub handle_sync_request-wires :
    (rm : RoomManager) (m : MemoryStorage) (room sender from limit now : ℕ) (frames : List Frame)
    → has_room rm room ≡ true
    → lookup room m.frames ≡ some frames
    → All Fits frames
    → from + limit < 2 ^ 64
    → handle_sync_request memory rm room sender from limit now m
      ≡ some (
          ok (
            send_sync_response sender room
              (wires (take limit (drop from frames)))
              (ltb (range_end from limit) (length frames))
              now))
unfolding handle_sync_request sync_response
handle_sync_request-wires rm m room sender from limit now frames known stored fits small =
    let logged : log m room ≡ frames = rw stored refl in
    rw
      (
        known,
        load_frames-log m room from limit frames stored small,
        handle_sync_request,
        encode_all-wires (take limit (drop from frames))
            (take-Fits limit (drop from frames) (drop-Fits from frames fits)),
        memory-KeepsLogs.latest m room,
        sync_response,
        last-wires from (length (take limit (drop from frames))) limit
            (omega (arith, length-take limit (drop from frames))) small,
        logged,
        has_more-wires frames from limit,
      )
      refl

-- A sync request is answered with frames, or with an error, and asks for nothing to be stored.
abbrev pub AnswersOnly : Option (Result RoomError RoomAction) → Type 0
AnswersOnly (some (ok (send_sync_response _ _ _ _ _))) = Unit {0}
AnswersOnly (some (ok _)) = ⊥
AnswersOnly _ = Unit {0}

sync_response-AnswersOnly :
    (room sender from now : ℕ) (frames : List Frame) (bytes : List (List ℕ))
    (latest : Result StorageError (Option ℕ))
    → AnswersOnly (sync_response room sender from now frames bytes latest)
unfolding sync_response
sync_response-AnswersOnly room sender from now frames bytes (err e) = tt
sync_response-AnswersOnly room sender from now frames bytes (ok latest) =
    elim (Option-cases (last_loaded from (length frames))) [
      | inl over ↦ rw (over, sync_response) tt
      | inr (last, within) ↦ rw (within, sync_response) tt
    ]

module _ {S : Type 0} (st : Storage S) (rm : RoomManager) (room sender from limit now : ℕ)
    (s : S) where
  loaded-AnswersOnly :
      (r : Option (Result StorageError (List Frame)))
      → st.load_frames s room from limit ≡ r
      → has_room rm room ≡ true
      → AnswersOnly (handle_sync_request st rm room sender from limit now s)
  unfolding handle_sync_request
  loaded-AnswersOnly none e known = rw (known, e, handle_sync_request) tt
  loaded-AnswersOnly (some (err x)) e known = rw (known, e, handle_sync_request) tt
  loaded-AnswersOnly (some (ok frames)) e known = elim (Option-cases (encode_all frames)) [
    | inl bad ↦ rw (known, e, bad, handle_sync_request) tt
    | inr (bytes, good) ↦
        rw (known, e, good, handle_sync_request)
          (sync_response-AnswersOnly room sender from now frames bytes (st.latest_log_index s room))
  ]

  pub handle_sync_request-AnswersOnly :
      AnswersOnly (handle_sync_request st rm room sender from limit now s)
  unfolding handle_sync_request
  handle_sync_request-AnswersOnly = elim (Bool-cases (has_room rm room)) [
    | inr unknown ↦ rw unknown tt
    | inl known ↦ loaded-AnswersOnly (st.load_frames s room from limit) refl known
  ]
