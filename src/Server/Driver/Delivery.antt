-- ===== src/Server/Driver/Delivery.antt =====
-- Who gets a frame (crates/lockframe-server/src/driver.rs): a frame that is ordered goes to the
-- subscribers of its room, a Welcome to its recipient.
use lockframe.Common.{
  ℕ, ◌<◌, ◌≡◌, refl, ap, ◌∙◌, List, [], ◌∷◌, ◌++◌, true, false, some, ==_self, if◌then◌else◌, arith,
  length, lookup, contains_key, set_insert, Result, ok, err, lookup-insert, contains-set_insert,
}
use lockframe.Proto.Opcode.{Opcode, is_welcome}
use lockframe.Proto.Header.{opcode_enum}
use lockframe.Proto.Header
use lockframe.Proto.Frame.{Frame}
use lockframe.Proto.Frame
use lockframe.Proto.Payload.Types.{Text}
use lockframe.Proto.Payload.Coder.{Cbor}
use lockframe.Core.Connection.{Connection}
use lockframe.Server.Storage.{Storage, StorageError, conflict, KeepsLogs}
use lockframe.Server.Sequencer.{u64_max, validate_frame_structure, rebuild_frame_with_index}
use lockframe.Server.Sequencer
use lockframe.Server.Sequencer.Indices.{IsCurrent, process_frame-sequenced}
use lockframe.Server.Registry.{
  ConnectionRegistry, or_empty, sessions_in_room, subscribe, is_subscribed, session_id_for_user,
}
use lockframe.Server.RoomManager.{
  RoomManager, RoomAction, has_room, process_frame, room_actions, sequencing,
}
use lockframe.Server.RoomManager
use lockframe.Server.RoomManager.Log.Step.{process_frame_known, log-stored}
use lockframe.Server.Driver.Types.{
  ServerDriver, ErrorText, frame_received, broadcast, send_to_session, log_line, debug,
  subscribed_via_welcome,
}
use lockframe.Server.Driver.Replies.{stored, process_room_action, process_room_actions, recipients}
use lockframe.Server.Driver.Sessions.{touch}
use lockframe.Server.Driver.Rooms.{
  route_frame, routed, welcome, handle_room_frame, subscribe_external,
}
use lockframe.Server.Driver.Rooms.Effects.{route_frame-Untouched}
use lockframe.Server.Driver.Events.Soundness.{After}
use lockframe.Server.Driver.Events.{process_event, handle_frame_received, handle_opcode}

opcode-rebuild :
    (f : Frame) (n : ℕ) → opcode_enum (rebuild_frame_with_index f n).header ≡ opcode_enum f.header
unfolding rebuild_frame_with_index Header.set_log_index Frame.new opcode_enum Header.opcode
opcode-rebuild f n = refl

module _ {S : Type 0} (st : Storage S) (log : S → ℕ → List Frame) (keeps : KeepsLogs st log)
    (cbor : Cbor) (to_string : ErrorText → Text) where
  stored_ok :
      (d : ServerDriver S) (room now : ℕ) (p : S × Result StorageError (Unit {0}))
      → p.1 ≡ ok tt
      → stored cbor to_string st d room now p ≡ (record d { storage = p.0 }, [])
  unfolding stored
  stored_ok d room now (s, ok _) e = refl
  stored_ok d room now (s, err x) e = cc

  -- The frame at the end of its room's log, and its subscribers.
  abbrev as_next : ServerDriver S → Frame → Frame
  as_next d f = rebuild_frame_with_index f (length (log d.storage (Header.room_id f.header)))

  -- What the two actions of an ordered frame do.
  carried_out :
      (d : ServerDriver S) (f : Frame) (session now : ℕ)
      → is_welcome (opcode_enum f.header) ≡ false
      → let room = Header.room_id f.header in
        let n = length (log d.storage room) in
        let f' = as_next d f in
        process_room_actions cbor to_string st d
          (RoomManager.persist_frame room n f' now ∷ RoomManager.broadcast room f' false now ∷ [])
          session
          now
        ≡ (
          record d { storage = (st.store_frame d.storage room n f').0 },
          broadcast (sessions_in_room d.registry room) f' ∷ [],
        )
  unfolding process_room_actions process_room_action recipients
  carried_out d f session now plain =
      let room = Header.room_id f.header in
      let n = length (log d.storage room) in
      let f' = as_next d f in
      let accepted : (st.store_frame d.storage room n f').1 ≡ ok tt =
        keeps.stored d.storage room n f'
        ∙ ap (λ b. if b then ok tt else err (conflict n n)) (==_self n) in
      let plain' : is_welcome (opcode_enum f'.header) ≡ false =
        ap is_welcome (opcode-rebuild f n) ∙ plain in
      rw (stored_ok d room now (st.store_frame d.storage room n f') accepted, plain') refl

  -- A frame that is valid, no Welcome and for a room that exists, once routed, is the next of its room's log, and goes
  -- to all sessions that are subscribed to the room and to nobody else, under its new index.
  route_frame-delivers :
      (d : ServerDriver S) (session : ℕ) (f : Frame) (now : ℕ)
      → IsCurrent log d.room_manager.sequencer d.storage
      → has_room d.room_manager (Header.room_id f.header) ≡ true
      → validate_frame_structure f ≡ ok tt
      → is_welcome (opcode_enum f.header) ≡ false
      → length (log d.storage (Header.room_id f.header)) < u64_max
      → let room = Header.room_id f.header in
        let (d', result) = route_frame cbor to_string st d session f now in
        (result ≡ ok (broadcast (sessions_in_room d.registry room) (as_next d f) ∷ []))
        × (log d'.storage room ≡ log d.storage room ++ as_next d f ∷ [])
        × (d'.registry ≡ d.registry)
  unfolding route_frame routed room_actions
  route_frame-delivers d session f now current known valid plain short =
      let room = Header.room_id f.header in
      let (given, moved) =
        process_frame-sequenced st log keeps d.room_manager.sequencer d.storage f current valid
          plain short in
      let rm = record d.room_manager {
        sequencer = (Sequencer.process_frame st d.room_manager.sequencer f d.storage).0;
      } in
      let d1 = record d { room_manager = rm } in
      rw
        (
          process_frame_known st log keeps d.room_manager d.storage f now known,
          given,
          carried_out d1 f session now plain,
        )
        (refl, log-stored st log keeps d.storage f room ∙ rw (==_self room) refl, refl)

  -- If the cached indices are current and the room's log has room below the end of u64, an
  -- application message from a connected session, valid and for a room that exists, is stored as
  -- the next frame of the room's log and sent to exactly the sessions that are subscribed to the
  -- room.
  pub app_message_delivered :
      (d : ServerDriver S) (s : ℕ) (c : Connection) (f : Frame) (now clock : ℕ)
      → lookup s d.connections ≡ some c
      → opcode_enum f.header ≡ some Opcode.app_message
      → IsCurrent log d.room_manager.sequencer d.storage
      → has_room d.room_manager (Header.room_id f.header) ≡ true
      → validate_frame_structure f ≡ ok tt
      → length (log d.storage (Header.room_id f.header)) < u64_max
      → let room = Header.room_id f.header in
        (d' : ServerDriver S) × (process_event cbor to_string st d (frame_received s f) now clock
          ≡ some (d', ok (broadcast (sessions_in_room d.registry room) (as_next d f) ∷ [])))
        × (log d'.storage room ≡ log d.storage room ++ as_next d f ∷ [])
  unfolding process_event handle_frame_received handle_opcode
  app_message_delivered d s c f now clock here code current known valid short =
      let d0 = touch d s c now in
      let (result, logged, _) =
        route_frame-delivers d0 s f now current known valid (ap is_welcome code) short in
      (
        (route_frame cbor to_string st d0 s f now).0,
        rw (here, code, handle_frame_received, handle_opcode)
            (ap (λ r. some ((route_frame cbor to_string st d0 s f now).0, r)) result),
        logged,
      )

module _ {S : Type 0} (st : Storage S) (cbor : Cbor) (to_string : ErrorText → Text) where
  subscribed_now :
      (g : ConnectionRegistry) (s room : ℕ)
      → contains_key s g.sessions ≡ true
      → is_subscribed (subscribe g s room).0 s room ≡ true
  unfolding subscribe is_subscribed
  subscribed_now g s room known = ground (
    arith,
    lookup-insert room room (set_insert s (or_empty (lookup room g.room_subscriptions)))
        g.room_subscriptions,
    contains-set_insert s s (or_empty (lookup room g.room_subscriptions)),
  )

  -- A Welcome from a connected session, whose recipient has a registered session, goes to that
  -- session and to no other, which is subscribed to the room from then on; nothing is stored.
  pub welcome_delivered :
      (d : ServerDriver S) (s r : ℕ) (c : Connection) (f : Frame) (now clock : ℕ)
      → lookup s d.connections ≡ some c
      → opcode_enum f.header ≡ some Opcode.welcome
      → session_id_for_user d.registry (Header.recipient_id f.header) ≡ some r
      → contains_key r d.registry.sessions ≡ true
      → let room = Header.room_id f.header in
        (d' : ServerDriver S) × (process_event cbor to_string st d (frame_received s f) now clock
          ≡ some (
            d',
            ok (
                log_line debug (subscribed_via_welcome r (Header.recipient_id f.header) room) now
                ∷ send_to_session r f
                ∷ []),
          ))
        × (is_subscribed d'.registry r room ≡ true)
        × (d'.storage ≡ d.storage)
  unfolding process_event handle_frame_received handle_opcode welcome
  welcome_delivered d s r c f now clock here code recipient known = (
    record (touch d s c now) { registry = (subscribe d.registry r (Header.room_id f.header)).0 },
    rw (here, code, recipient, handle_frame_received, handle_opcode) refl,
    subscribed_now d.registry r (Header.room_id f.header) known,
    refl,
  )

  -- An external commit for a room that exists, from a connected and registered session,
  -- subscribes the session to the room, whatever the state of its connection, and also when the
  -- frame is refused afterwards.
  pub external_commit_subscribes :
      (d : ServerDriver S) (s : ℕ) (c : Connection) (f : Frame) (now clock : ℕ)
      → lookup s d.connections ≡ some c
      → contains_key s d.registry.sessions ≡ true
      → opcode_enum f.header ≡ some Opcode.external_commit
      → has_room d.room_manager (Header.room_id f.header) ≡ true
      → After
          (λ d'. is_subscribed d'.registry s (Header.room_id f.header) ≡ true)
          (process_event cbor to_string st d (frame_received s f) now clock)
  unfolding process_event handle_frame_received handle_opcode handle_room_frame subscribe_external
  external_commit_subscribes d s c f now clock here known code exists =
      let room = Header.room_id f.header in
      let d0 = touch d s c now in
      let d1 = record d0 { registry = (subscribe d.registry s room).0 } in
      let kept : (route_frame cbor to_string st d1 s f now).0.registry ≡ d1.registry =
        (route_frame-Untouched cbor to_string st d1 s f now).registry in
      rw (here, code, exists, handle_frame_received, handle_opcode, handle_room_frame)
        (rw kept (subscribed_now d.registry s room known))
