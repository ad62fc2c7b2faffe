-- ===== src/Server/Sequencer/Indices.antt =====
-- Which index a frame gets (crates/lockframe-server/src/sequencer.rs).
use lockframe.Common.{
  Bool-cases, contains_key, ==_iff, ℕ, ◌+◌, ◌^◌, ◌<◌, ◌≡◌, refl, ◌∙◌, List, [], ◌∷◌, true, false,
  Option, some, Option-cases, inl, inr, ◌==◌, if◌then◌else◌, ok, err, length, lookup, insert,
  lookup-insert, arith, from_be_bytes-to_be_bytes,
}
use lockframe.Proto.Opcode.{is_welcome}
use lockframe.Proto.Header.{opcode_enum}
use lockframe.Proto.Header
use lockframe.Proto.Frame.{Frame}
use lockframe.Proto.Frame
use lockframe.Server.Storage.{Storage, KeepsLogs, last_index}
use lockframe.Server.Sequencer.{
  Sequencer, RoomSequencer, SequencerError, SequencerAction, accept_frame, store_frame,
  broadcast_to_room, u64_max, next_after, assign, enter, sequence, route, validate_frame_structure,
  rebuild_frame_with_index, process_frame, initialize_room, initialized,
}

pub next_after-last_index {ℓ} :
    {A : Type ℓ} (xs : List A) → length xs < 2 ^ 64 → next_after (last_index xs) ≡ length xs
next_after-last_index [] h = refl
next_after-last_index (x ∷ xs) h = omega arith

-- Accepted, stored and broadcast with one index.
abbrev pub sequenced_as : ℕ → ℕ → Frame → List SequencerAction
sequenced_as room n f =
    let f' = rebuild_frame_with_index f n in
    accept_frame room n f' ∷ store_frame room n f' ∷ broadcast_to_room room f' ∷ []

-- The cache after the index n was given in a room.
abbrev advanced : Sequencer → ℕ → ℕ → ℕ → Option RoomSequencer
advanced q room n other =
    if room == other then some (record { next_log_index = n + 1 }) else lookup other q.rooms

assign-advanced :
    (q : Sequencer) (room n : ℕ) (f : Frame)
    → n < u64_max
    → ((assign q room f n).1 ≡ ok (sequenced_as room n f))
      × ((other : ℕ) → lookup other (assign q room f n).0.rooms ≡ advanced q room n other)
unfolding assign
assign-advanced q room n f h =
    let ne : (n == u64_max) ≡ false = ground arith in
    rw ne (refl, λ other. lookup-insert room other (record { next_log_index = n + 1 }) q.rooms)

advanced-insert :
    (q : Sequencer) (room m n other : ℕ)
    → advanced
        (record q { rooms = insert room (record { next_log_index = m }) q.rooms })
        room
        n
        other
      ≡ advanced q room n other
advanced-insert q room m n other =
    ground (arith, lookup-insert room other (record { next_log_index = m }) q.rooms)

-- The cached index of every cached room is the length of its log.
abbrev pub IsCurrent : {S : Type 0} → (S → ℕ → List Frame) → Sequencer → S → Type 0
IsCurrent log q s =
    (room : ℕ) (r : RoomSequencer)
    → lookup room q.rooms ≡ some r
    → r.next_log_index ≡ length (log s room)

pub log_index-rebuild :
    (f : Frame) (n : ℕ) → n < u64_max → Header.log_index (rebuild_frame_with_index f n).header ≡ n
unfolding rebuild_frame_with_index Header.log_index Header.set_log_index Frame.new
log_index-rebuild f n h = from_be_bytes-to_be_bytes 8 n (omega arith)

pub room_id-rebuild :
    (f : Frame) (n : ℕ)
    → Header.room_id (rebuild_frame_with_index f n).header ≡ Header.room_id f.header
unfolding rebuild_frame_with_index Header.room_id Header.set_log_index Frame.new
room_id-rebuild f n = refl

module _ {S : Type 0} (st : Storage S) (log : S → ℕ → List Frame) (keeps : KeepsLogs st log) where
  sequence-advanced :
      (q : Sequencer) (s : S) (room : ℕ) (f : Frame)
      → IsCurrent log q s
      → length (log s room) < u64_max
      → let (q', result) = sequence q room f (lookup room q.rooms) (st.latest_log_index s room) in
        (result ≡ ok (sequenced_as room (length (log s room)) f))
        × ((other : ℕ) → lookup other q'.rooms ≡ advanced q room (length (log s room)) other)
  unfolding sequence enter
  sequence-advanced q s room f current short = elim (Option-cases (lookup room q.rooms)) [
    | inr (r, cached) ↦
        rw (cached, current room r cached) (assign-advanced q room (length (log s room)) f short)
    | inl vacant ↦
        let n = length (log s room) in
        let fits : length (log s room) < 2 ^ 64 = omega arith in
        rw (vacant, keeps.latest s room, enter, next_after-last_index (log s room) fits)
          (let q' = record q { rooms = insert room (record { next_log_index = n }) q.rooms } in
            let (given, moved) = assign-advanced q' room n f short in
            (given, λ other. moved other ∙ advanced-insert q room n n other))
  ]

  pub process_frame-invalid :
      (q : Sequencer) (s : S) (f : Frame) (e : SequencerError)
      → validate_frame_structure f ≡ err e
      → process_frame st q f s ≡ (q, err e)
  unfolding process_frame
  process_frame-invalid q s f e invalid = rw (invalid, process_frame)

  pub process_frame-welcome :
      (q : Sequencer) (s : S) (f : Frame)
      → validate_frame_structure f ≡ ok tt
      → is_welcome (opcode_enum f.header) ≡ true
      → process_frame st q f s ≡ (q, ok (broadcast_to_room (Header.room_id f.header) f ∷ []))
  unfolding process_frame route
  process_frame-welcome q s f valid welcome = rw (valid, process_frame, welcome)

  -- A frame of valid structure that is not a Welcome gets the length of its room's log as its
  -- index, and the cache of that room, and of no other, moves to the next one: provided that the
  -- cache agrees with the store before, and the log is not at the end of u64.
  pub process_frame-sequenced :
      (q : Sequencer) (s : S) (f : Frame)
      → IsCurrent log q s
      → validate_frame_structure f ≡ ok tt
      → is_welcome (opcode_enum f.header) ≡ false
      → length (log s (Header.room_id f.header)) < u64_max
      → let room = Header.room_id f.header in
        let (q', result) = process_frame st q f s in
        (result ≡ ok (sequenced_as room (length (log s room)) f))
        × ((other : ℕ)
            → lookup other q'.rooms ≡ (
                if room == other
                then some (record { next_log_index = length (log s room) + 1 })
                else lookup other q.rooms))
  unfolding process_frame route
  process_frame-sequenced q s f current valid plain short =
      rw (valid, process_frame, plain)
        (sequence-advanced q s (Header.room_id f.header) f current short)

module _ {S : Type 0} (st : Storage S) (log : S → ℕ → List Frame) (keeps : KeepsLogs st log) where
  -- A room that is initialized from the store gets the index after the last one of its log.
  pub initialize_room-IsCurrent :
      (q : Sequencer) (room : ℕ) (s : S)
      → length (log s room) < 2 ^ 64
      → IsCurrent log q s
      → IsCurrent log (initialize_room st q room s).0 s
  unfolding initialize_room initialized
  initialize_room-IsCurrent q room s short i = elim (Bool-cases (contains_key room q.rooms)) [
    | inl old ↦ rw old i
    | inr new ↦
        rw (new, keeps.latest s room, initialize_room)
          (λ other r e. ground (
            arith,
            i other r,
            e,
            lookup-insert room other
                (record { next_log_index = next_after (last_index (log s room)) }) q.rooms,
            next_after-last_index (log s room) short,
            ==_iff room other,
          ))
  ]
