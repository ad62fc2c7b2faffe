-- ===== src/Examples/Rooms.antt =====
-- A server with one room (crates/lockframe-server/src/sequencer.rs, room_manager.rs, driver.rs and
-- storage/memory.rs).
use lockframe.Common.{
  true, ltb, ℕ, ◌+◌, ◌≡◌, ◌≤◌, ◌<◌, refl, [], ◌∷◌, some, ok, false, arith, length, lookup, ◌==◌,
  if◌then◌else◌, take, drop, to_be_bytes, from_be_bytes, get_elem?, insert, remove,
}
use lockframe.Proto.Opcode.{Opcode, is_welcome, to_u16, from_u16}
use lockframe.Proto.Header as Header
use lockframe.Proto.Header.{FrameHeader, max_payload_size, opcode_enum, set_room_id}
use lockframe.Proto.Frame as Frame
use lockframe.Proto.Frame.{Frame}
use lockframe.Server.Sequencer as Sequencer
use lockframe.Server.Sequencer.{Sequencer, SequencerError, validate_frame_structure, u64_max}
use lockframe.Server.Sequencer.Indices.{IsCurrent, sequenced_as, process_frame-sequenced}
use lockframe.Server.RoomManager as RoomManager
use lockframe.Server.RoomManager.{RoomManager}
use lockframe.Server.RoomManager.Log as Log
use lockframe.Server.Memory as Memory
use lockframe.Server.RoomManager.Log.{submit_all}
use lockframe.Server.RoomManager.Log.Order.{IsConsistent, submit_all-IsConsistent}
use lockframe.Server.Memory.{MemoryStorage, memory, load_frames}
use lockframe.Server.RoomManager.Sync.{wires, range_end, handle_sync_request-wires}
use lockframe.Server.Memory.Logs.{log, memory-KeepsLogs}

abbrev pub frame : Frame
frame = Frame.new (set_room_id (Header.new Opcode.app_message) 7) (1 ∷ 2 ∷ 3 ∷ [])

-- Room 7 is there, and nothing has been said.
abbrev pub manager : RoomManager
manager = record {
  sequencer = record { rooms = [] };
  room_metadata = (7, record { creator = 1; created_at_secs = 0 }) ∷ [];
}

abbrev pub contents : MemoryStorage
contents = record {
  rooms = (7, record { creator = 1; created_at_secs = 0 }) ∷ [];
  frames = [];
  mls_states = [];
  group_infos = [];
}

contents_empty : (room : ℕ) → log contents room ≡ []
unfolding lookup
contents_empty room = refl

pub nothing_cached : IsCurrent log (record { rooms = [] }) contents
unfolding lookup
nothing_cached room r e = cc e

nothing_ordered :
    (room i : ℕ) (f : Frame)
    → get_elem? (log contents room) i ≡ some f
    → (Header.log_index f.header ≡ i) × (Header.room_id f.header ≡ room)
unfolding lookup
nothing_ordered room i f e = cc e

pub consistent : IsConsistent memory log memory-KeepsLogs manager contents
consistent = record { current = nothing_cached; ordered = nothing_ordered }

room_for_two : (room : ℕ) → length (log contents room) + 2 ≤ u64_max
unfolding lookup
room_for_two room = omega arith

-- Two frames, one after the other.
submit_all-IsConsistent_example :
    let (rm', s') = submit_all memory manager contents ((frame, 5) ∷ (frame, 6) ∷ []) in
    IsConsistent memory log memory-KeepsLogs rm' s'
submit_all-IsConsistent_example =
    submit_all-IsConsistent memory log memory-KeepsLogs manager contents
      ((frame, 5) ∷ (frame, 6) ∷ []) room_for_two consistent

-- Both frames are in the log.
two_logged :
    length (log (submit_all memory manager contents ((frame, 5) ∷ (frame, 6) ∷ [])).1 7) ≡ 2
unfolding submit_all Log.submit RoomManager.process_frame Sequencer.process_frame
    RoomManager.clear_room_sequencer RoomManager.has_room RoomManager.room_actions
    Sequencer.clear_room Sequencer.rebuild_frame_with_index lookup insert remove Header.sender_id
    Header.set_log_index Memory.store_frame Memory.latest_log_index validate_frame_structure
    Header.magic from_be_bytes Frame.new set_room_id Header.new to_be_bytes Header.payload_size
    Header.room_id Header.epoch opcode_enum from_u16 Header.opcode to_u16
two_logged = refl

pub frame_valid : validate_frame_structure frame ≡ ok tt
unfolding validate_frame_structure Header.magic from_be_bytes Frame.new set_room_id Header.new
    to_be_bytes Header.payload_size Header.room_id Header.epoch
frame_valid = refl

frame_plain : is_welcome (opcode_enum frame.header) ≡ false
unfolding from_be_bytes Frame.new set_room_id Header.new to_be_bytes opcode_enum from_u16
    Header.opcode to_u16
frame_plain = refl

pub log_short : length (log contents (Header.room_id frame.header)) < u64_max
unfolding lookup
log_short = omega arith

process_frame-sequenced_example :
    let room = Header.room_id frame.header in
    let (q', result) = Sequencer.process_frame memory (record { rooms = [] }) frame contents in
    (result ≡ ok (sequenced_as room (length (log contents room)) frame))
    × ((other : ℕ)
        → lookup other q'.rooms ≡ (
            if room == other
            then some (record { next_log_index = length (log contents room) + 1 })
            else lookup other []))
process_frame-sequenced_example =
    process_frame-sequenced memory log memory-KeepsLogs (record { rooms = [] }) contents frame
      nothing_cached frame_valid frame_plain log_short

abbrev kept : MemoryStorage
kept = record contents { frames = (7, frame ∷ frame ∷ []) ∷ [] }

kept_frames : lookup 7 kept.frames ≡ some (frame ∷ frame ∷ [])
unfolding lookup
kept_frames = refl

frame_fits : length frame.payload ≤ max_payload_size
unfolding Frame.new
frame_fits = omega arith

room_known : RoomManager.has_room manager 7 ≡ true
unfolding RoomManager.has_room lookup
room_known = refl

handle_sync_request-wires_example :
    RoomManager.handle_sync_request memory manager 7 1 0 1 5 kept
    ≡ some (
        ok (
          RoomManager.send_sync_response 1 7
            (wires (take 1 (drop 0 (frame ∷ frame ∷ []))))
            (ltb (range_end 0 1) (length (frame ∷ frame ∷ [])))
            5))
handle_sync_request-wires_example =
    handle_sync_request-wires manager kept 7 1 0 1 5 (frame ∷ frame ∷ []) room_known kept_frames
      (frame_fits, (frame_fits, tt)) (omega arith)
