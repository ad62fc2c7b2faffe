-- ===== src/Server/Driver/Rooms/Ordering.antt =====
-- Routing a frame is submitting it, and creating and recovering rooms leaves the logs alone
-- (crates/lockframe-server/src/driver.rs).
use lockframe.Common.{
  not, ◌&&◌, ℕ, ◌<◌, ◌≡◌, refl, List, [], ◌∷◌, Option, none, some, Option-cases, Bool-cases,
  Result-cases, inl, inr, arith, length, Result, ok, err,
}
use lockframe.Proto.Opcode.{Opcode}
use lockframe.Proto.Header.{opcode_enum}
use lockframe.Proto.Header
use lockframe.Proto.Frame.{Frame}
use lockframe.Proto.Payload.Types.{Text}
use lockframe.Proto.Payload.Coder.{Cbor}
use lockframe.Server.Storage.{KeepsLogs, Storage}
use lockframe.Server.Registry.{sessions}
use lockframe.Server.RoomManager.{RoomManager, RoomError}
use lockframe.Server.RoomManager
use lockframe.Server.Driver.Types.{ServerDriver, ServerError, ErrorText}
use lockframe.Server.Driver.Replies.{Actions}
use lockframe.Server.Driver.Rooms.{
  welcome, created, create_room, finish, recover_all, is_some_commit, recover_from_storage,
  route_frame, subscribe_external, handle_room_frame,
}
use lockframe.Server.RoomManager.{process_frame, RoomAction}
use lockframe.Server.RoomManager.Log.{submit, after_process}
use lockframe.Server.RoomManager.Creation.{create_room_kept, recover_room-IsCurrent}
use lockframe.Server.Driver.Rooms.{routed, unwrap_or}
use lockframe.Server.Sequencer.Indices.{IsCurrent}
use lockframe.Server.Sequencer.{u64_max}
use lockframe.Server.Driver.Logs.{
  ordering, IsOrdered, Steady, Advances, HasRoom, unmoved, Steady-trans, Steady-IsOrdered,
  Steady-Advances, Steady-HasRoom, Advances-after, submit-Advances, ordering-actions,
}

module _ (cbor : Cbor) (to_string : ErrorText → Text) {S : Type 0} (st : Storage S) where
  ordering-routed :
      (d : ServerDriver S) (session now : ℕ) (p : RoomManager × Result RoomError (List RoomAction))
      → ordering (routed cbor to_string st d session now p).0 ≡ after_process st d.storage p
  unfolding routed after_process
  ordering-routed d session now (rm, err e) = refl
  ordering-routed d session now (rm, ok actions) =
      ordering-actions cbor to_string st (record d { room_manager = rm }) actions session now

  -- Routing a frame through the driver has the same effect on the room manager and on the store as submitting it there.
  pub ordering-route_frame :
      (d : ServerDriver S) (session : ℕ) (f : Frame) (now : ℕ)
      → ordering (route_frame cbor to_string st d session f now).0
        ≡ submit st d.room_manager d.storage (f, now)
  unfolding route_frame submit
  ordering-route_frame d session f now =
      ordering-routed d session now (process_frame st d.room_manager f now d.storage)

module _ {S : Type 0} (st : Storage S) (log : S → ℕ → List Frame) (keeps : KeepsLogs st log) where
  pub welcome-Steady :
      (d : ServerDriver S) (user room : ℕ) (f : Frame) (now : ℕ) (session : Option ℕ)
      → Steady st log keeps d (welcome d user room f now session).0
  unfolding welcome
  welcome-Steady d user room f now none = unmoved st log keeps d
  welcome-Steady d user room f now (some s) = record { sequencer = refl; logs = λ r. refl }

  subscribe_external-Steady :
      (d : ServerDriver S) (o : Option Opcode) (s room now : ℕ)
      → Steady st log keeps d (subscribe_external d o s room now).0
  unfolding subscribe_external
  subscribe_external-Steady d (some Opcode.external_commit) s room now = record {
    sequencer = refl;
    logs = λ r. refl;
  }
  subscribe_external-Steady d (some _) s room now = unmoved st log keeps d
  subscribe_external-Steady d none s room now = unmoved st log keeps d

  created-Steady :
      (d : ServerDriver S) (room s now : ℕ) (p : RoomManager × S × Result RoomError (Unit {0}))
      → p.0.sequencer ≡ d.room_manager.sequencer
      → ((other : ℕ) → log p.1 other ≡ log d.storage other)
      → Steady st log keeps d (created st d room s now p).0
  unfolding created
  created-Steady d room s now (rm, store, err e) kept same = record {
    sequencer = kept;
    logs = same;
  }
  created-Steady d room s now (rm, store, ok _) kept same = record { sequencer = kept; logs = same }

  create_room-Steady :
      (d : ServerDriver S) (room s now clock : ℕ)
      → Steady st log keeps d (create_room st d room s now clock).0
  unfolding create_room
  create_room-Steady d room s now clock = elim (Option-cases (sessions d.registry s)) [
    | inl e ↦ rw (e, create_room) (unmoved st log keeps d)
    | inr (known, e) ↦
        let (kept, same) =
          create_room_kept st log keeps d.room_manager room (unwrap_or known.user_id s) clock
            d.storage in
        rw (e, create_room) (created-Steady d room s now _ kept same)
  ]

  recover_all-IsCurrent :
      (rm : RoomManager) (rooms : List ℕ) (s : S)
      → ((room : ℕ) → length (log s room) < u64_max)
      → IsCurrent log rm.sequencer s
      → IsCurrent log (recover_all st rm rooms s).0.sequencer s
  unfolding recover_all
  recover_all-IsCurrent rm [] s short i = i
  recover_all-IsCurrent rm (room ∷ rooms) s short i =
      let i' = recover_room-IsCurrent st log keeps rm room s (omega (arith, short room)) i in
      elim (Result-cases (RoomManager.recover_room st rm room s).1) [
        | inr (e, bad) ↦ rw (bad, recover_all) i'
        | inl (u, good) ↦
            rw (good, recover_all)
              (recover_all-IsCurrent (RoomManager.recover_room st rm room s).0 rooms s short i')
      ]

  -- Recovery from the store, at any time, keeps the order.
  recover-IsOrdered :
      (d : ServerDriver S)
      → HasRoom st log keeps d
      → IsOrdered st log keeps d
      → IsOrdered st log keeps (recover_from_storage st d).0
  unfolding recover_from_storage
  recover-IsOrdered d short i = elim (Result-cases (st.list_rooms d.storage)) [
    | inr (e, bad) ↦ rw (bad, recover_from_storage) i
    | inl (rooms, good) ↦
        rw (good, recover_from_storage)
          (record {
            current = recover_all-IsCurrent d.room_manager rooms d.storage short i.current;
            ordered = i.ordered;
          })
  ]

  module _ (cbor : Cbor) (to_string : ErrorText → Text) where
    pub route_frame-Advances :
        (d : ServerDriver S) (s : ℕ) (f : Frame) (now : ℕ)
        → IsOrdered st log keeps d
        → HasRoom st log keeps d
        → Advances st log keeps d.storage (route_frame cbor to_string st d s f now).0
    route_frame-Advances d s f now i short =
        submit-Advances st log keeps d (route_frame cbor to_string st d s f now).0 f now
          (ordering-route_frame cbor to_string st d s f now) i short

    finish-Advances :
        (d : ServerDriver S) (before : Actions) (o : Option Opcode) (s : ℕ) (f : Frame) (now : ℕ)
        (p : ServerDriver S × Result ServerError Actions)
        → Steady st log keeps d p.0
        → IsOrdered st log keeps d
        → HasRoom st log keeps d
        → Advances st log keeps d.storage (finish cbor to_string st before o s f now p).0
    unfolding finish
    finish-Advances d before o s f now (d', err e) u i short = Steady-Advances st log keeps d d' u i
    finish-Advances d before o s f now (d', ok first) u i short =
        let d'' = (subscribe_external d' o s (Header.room_id f.header) now).0 in
        let u' : Steady st log keeps d d'' =
          Steady-trans st log keeps d d' d'' u
            (subscribe_external-Steady d' o s (Header.room_id f.header) now) in
        Advances-after st log keeps d d'' (route_frame cbor to_string st d'' s f now).0 u' (
          route_frame-Advances d'' s f now (Steady-IsOrdered st log keeps d d'' u' i)
            (Steady-HasRoom st log keeps d d'' u' short))

    pub handle_room_frame-Advances :
        (d : ServerDriver S) (s : ℕ) (f : Frame) (o : Option Opcode) (now clock : ℕ)
        → IsOrdered st log keeps d
        → HasRoom st log keeps d
        → Advances st log keeps d.storage (handle_room_frame cbor to_string st d s f o now clock).0
    unfolding handle_room_frame
    handle_room_frame-Advances d s f o now clock i short =
        elim (Bool-cases (
          is_some_commit o
          && not (RoomManager.has_room d.room_manager (Header.room_id f.header)))) [
            | inl e ↦ rw e (
                finish-Advances d [] o s f now
                  (create_room st d (Header.room_id f.header) s now clock)
                  (create_room-Steady d (Header.room_id f.header) s now clock) i short)
            | inr e ↦
                rw e (finish-Advances d [] o s f now (d, ok []) (unmoved st log keeps d) i short)
          ]
