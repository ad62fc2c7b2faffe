-- ===== src/Server/RoomManager/Log/Order.antt =====
-- The total order of a room's frames (crates/lockframe-server/src/room_manager.rs, sequencer.rs
-- and driver.rs).
use lockframe.Common.{
  ℕ, suc, ◌+◌, ◌≤◌, ◌<◌, ◌≡◌, get_elem?, get_elem?-snoc, subst, ap, sym, ◌∙◌, List, [], ◌∷◌, ◌++◌,
  Option, none, some, Bool-cases, inl, inr, ◌==◌, ==_iff, length-append, if◌then◌else◌, length,
  lookup, arith,
}
use mathlib.Core.List.{append-nil, append_assoc}
use lockframe.Proto.Header.{opcode_enum}
use lockframe.Proto.Header
use lockframe.Proto.Frame.{Frame}
use lockframe.Server.Storage.{Storage, KeepsLogs}
use lockframe.Server.Sequencer.{u64_max, validate_frame_structure, rebuild_frame_with_index}
use lockframe.Server.Sequencer
use lockframe.Server.Sequencer.Indices.{IsCurrent, log_index-rebuild, room_id-rebuild}
use lockframe.Server.RoomManager.{RoomManager}
use lockframe.Server.RoomManager.Log.{submit, submit_all}
use lockframe.Server.RoomManager.Log.Step.{Effect, unlogged, appended, submit-Effect}

abbrev index_of : Option Sequencer.RoomSequencer → ℕ
index_of none = 0
index_of (some r) = r.next_log_index

module _ {S : Type 0} (st : Storage S) (log : S → ℕ → List Frame) (keeps : KeepsLogs st log) where
  -- The cache agrees with the logs, and each frame of a log carries its position as its index and
  -- the room that it is in.
  pub record IsConsistent (rm : RoomManager) (s : S) : Type 0 where
    pub current : IsCurrent log rm.sequencer s
    pub ordered :
        (room i : ℕ) (f : Frame)
        → get_elem? (log s room) i ≡ some f
        → (Header.log_index f.header ≡ i) × (Header.room_id f.header ≡ room)

  -- A frame at the end of its room's log.
  abbrev grown_log : S → Frame → ℕ → List Frame
  grown_log s f other =
      let room = Header.room_id f.header in
      if room == other
      then log s room ++ rebuild_frame_with_index f (length (log s room)) ∷ []
      else log s other

  current_after :
      (rm : RoomManager) (s : S) (f : Frame) (room : ℕ) (r : Sequencer.RoomSequencer)
      → IsCurrent log rm.sequencer s
      → (if Header.room_id f.header == room
          then some (record { next_log_index = length (log s (Header.room_id f.header)) + 1 })
          else lookup room rm.sequencer.rooms)
        ≡ some r
      → r.next_log_index ≡ length (grown_log s f room)
  current_after rm s f room r current e = elim (Bool-cases (Header.room_id f.header == room)) [
    | inl here ↦
        let logged = log s (Header.room_id f.header) in
        let e' : some (record { next_log_index = length logged + 1 }) ≡ some r = rw here at e in
        rw here (
          omega (
            arith,
            length-append logged (rebuild_frame_with_index f (length logged) ∷ []),
            ap (λ (o : Option Sequencer.RoomSequencer). index_of o) e',
          ))
    | inr elsewhere ↦ rw elsewhere (current room r (rw elsewhere at e))
  ]

  ordered_after :
      (s : S) (f : Frame) (room i : ℕ) (g : Frame)
      → length (log s (Header.room_id f.header)) < u64_max
      → ((room i : ℕ) (g : Frame)
          → get_elem? (log s room) i ≡ some g
          → (Header.log_index g.header ≡ i) × (Header.room_id g.header ≡ room))
      → get_elem? (grown_log s f room) i ≡ some g
      → (Header.log_index g.header ≡ i) × (Header.room_id g.header ≡ room)
  ordered_after s f room i g short ordered e = elim (Bool-cases (Header.room_id f.header == room)) [
    | inr elsewhere ↦ ordered room i g (rw elsewhere at e)
    | inl here ↦
        let home = Header.room_id f.header in
        let n = length (log s home) in
        let same : home ≡ room = (==_iff home room).0 here in
        elim (get_elem?-snoc (log s home) (rebuild_frame_with_index f n) g i (rw here at e)) [
          | inl old ↦
              subst (λ k. (Header.log_index g.header ≡ i) × (Header.room_id g.header ≡ k)) same
                (ordered home i g old)
          | inr (last, new) ↦
              rw (← new) (log_index-rebuild f n short ∙ sym last, room_id-rebuild f n ∙ same)
        ]
  ]

  pub Effect-IsConsistent :
      {rm : RoomManager} {s : S} {f : Frame} {rm' : RoomManager} {s' : S}
      → Effect st log keeps rm s f rm' s'
      → ((room : ℕ) → length (log s room) < u64_max)
      → IsConsistent rm s
      → IsConsistent rm' s'
  Effect-IsConsistent (unlogged same kept) short c = record {
    current = λ room r e.
        rw (same room) (c.current room r (subst (λ q. lookup room q.rooms ≡ some r) kept e));
    ordered = λ room i f e. c.ordered room i f (rw (same room) at e);
  }
  Effect-IsConsistent {rm} {s} {f} (appended grown moved) short c = record {
    current =
        λ room r e. rw (grown room) (current_after rm s f room r c.current (sym (moved room) ∙ e));
    ordered = λ room i g e.
        ordered_after s f room i g (short (Header.room_id f.header)) c.ordered
          (rw (grown room) at e);
  }

  pub Effect-extends :
      {rm : RoomManager} {s : S} {f : Frame} {rm' : RoomManager} {s' : S}
      → Effect st log keeps rm s f rm' s'
      → (room : ℕ) → (more : List Frame) × (log s' room ≡ log s room ++ more) × (length more ≤ 1)
  Effect-extends (unlogged same kept) room = ([], same room ∙ sym (append-nil _), omega arith)
  Effect-extends {s = s} {f = f} (appended grown moved) room =
      elim (Bool-cases (Header.room_id f.header == room)) [
        | inl here ↦
            let same : Header.room_id f.header ≡ room =
              (==_iff (Header.room_id f.header) room).0 here in
            (
              rebuild_frame_with_index f (length (log s (Header.room_id f.header))) ∷ [],
              grown room ∙ rw (here, same),
              omega arith,
            )
        | inr elsewhere ↦ ([], grown room ∙ rw elsewhere (sym (append-nil _)), omega arith)
      ]

  -- Room for a number of further frames in every log.
  abbrev HasSpace : S → ℕ → Type 0
  HasSpace s k = (room : ℕ) → length (log s room) + k ≤ u64_max

  short_of_space : (s : S) (k : ℕ) → HasSpace s (suc k) → (room : ℕ) → length (log s room) < u64_max
  short_of_space s k space room = omega (arith, space room)

  space_after :
      {rm : RoomManager} {s : S} {f : Frame} {rm' : RoomManager} {s' : S} (k : ℕ)
      → Effect st log keeps rm s f rm' s'
      → HasSpace s (suc k)
      → HasSpace s' k
  space_after {s = s} k effect space room =
      let (more, e, le) = Effect-extends effect room in
      omega (arith, space room, ap length e, length-append (log s room) more, le)

  -- Any frames, submitted one after the other to a consistent server, leave it consistent: the
  -- frames of each log still carry their positions as indices, with no gap and no index twice.
  -- The logs are assumed to have room for the frames below the end of u64.
  pub submit_all-IsConsistent :
      (rm : RoomManager) (s : S) (frames : List (Frame × ℕ))
      → ((room : ℕ) → length (log s room) + length frames ≤ u64_max)
      → IsConsistent rm s
      → let (rm', s') = submit_all st rm s frames in IsConsistent rm' s'
  unfolding submit_all
  submit_all-IsConsistent rm s [] short c = c
  submit_all-IsConsistent rm s ((f, now) ∷ frames) short c =
      let (rm', s') = submit st rm s (f, now) in
      let now_short = short_of_space s (length frames) short in
      let effect = submit-Effect st log keeps rm s f now c.current now_short in
      submit_all-IsConsistent rm' s' frames (space_after (length frames) effect short)
        (Effect-IsConsistent effect now_short c)

  -- The logs only grow at their ends: what a log held before stays at its place.
  submit_all-extends :
      (rm : RoomManager) (s : S) (frames : List (Frame × ℕ))
      → ((room : ℕ) → length (log s room) + length frames ≤ u64_max)
      → IsConsistent rm s
      → (room : ℕ)
      → (more : List Frame) × (log (submit_all st rm s frames).1 room ≡ log s room ++ more)
  unfolding submit_all
  submit_all-extends rm s [] short c room = ([], sym (append-nil _))
  submit_all-extends rm s ((f, now) ∷ frames) short c room =
      let (rm', s') = submit st rm s (f, now) in
      let now_short = short_of_space s (length frames) short in
      let effect = submit-Effect st log keeps rm s f now c.current now_short in
      let (first, e, _) = Effect-extends effect room in
      let (more, e') =
        submit_all-extends rm' s' frames (space_after (length frames) effect short)
          (Effect-IsConsistent effect now_short c) room in
      (first ++ more, e' ∙ ap (λ xs. xs ++ more) e ∙ append_assoc (log s room) first more)
