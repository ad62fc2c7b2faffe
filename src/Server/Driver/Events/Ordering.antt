-- ===== src/Server/Driver/Events/Ordering.antt =====
-- Every event keeps the order of the frames (crates/lockframe-server/src/driver.rs).
use lockframe.Common.{
  ℕ, ◌<◌, refl, ap, List, Option, none, some, Option-cases, Bool-cases, inl, inr, leb, length,
  lookup, Result, ok, err,
}
use lockframe.Proto.Opcode.{Opcode}
use lockframe.Proto.Header.{opcode_enum}
use lockframe.Proto.Header
use lockframe.Proto.Frame.{Frame}
use lockframe.Proto.Payload.Types.{Text}
use lockframe.Proto.Payload.Coder.{Cbor}
use lockframe.Core.Connection.{Connection, ConnectionAction, ConnectionError, handle_frame}
use lockframe.Server.Storage.{KeepsLogs, Storage}
use lockframe.Server.Registry.{session_id_for_user}
use lockframe.Server.RoomManager.{RoomManager}
use lockframe.Server.Driver.Types.{
  ServerDriver, ServerEvent, ErrorText, connection_accepted, frame_received, connection_closed,
  timer_tick,
}
use lockframe.Server.Driver.Replies.{Actions}
use lockframe.Server.Driver.Requests.{handle_sync, handle_key_package_publish}
use lockframe.Server.Driver.Sessions.{
  handle_connection_accepted, handle_connection_closed, handle_tick, session_frame_done, touch,
}
use lockframe.Server.Driver.Events.{
  maybe_answered, handle_opcode, handle_frame_received, process_event,
}
use lockframe.Server.Driver.Logs.{IsOrdered, Steady, Advances, HasRoom, unmoved, Steady-Advances}
use lockframe.Server.Driver.Requests.Steadiness.{
  MaySteady, handle_sync-MaySteady, handle_key_package_publish-MaySteady,
  handle_key_package_fetch-Steady, handle_group_info_publish-Steady,
}
use lockframe.Server.Driver.Rooms.Ordering.{
  welcome-Steady, route_frame-Advances, handle_room_frame-Advances,
}
use lockframe.Server.Driver.Sessions.Soundness.{ordering-closed}
use lockframe.Server.Sequencer.{u64_max}
use lockframe.Server.Driver.Events.Soundness.{After}

module _ {S : Type 0} (st : Storage S) (log : S → ℕ → List Frame) (keeps : KeepsLogs st log)
    (cbor : Cbor) (to_string : ErrorText → Text) where
  -- Changes of connections and sessions alone.
  session_frame_done-Steady :
      (d : ServerDriver S) (s : ℕ) (o : Opcode)
      (p : Connection × Result ConnectionError (List ConnectionAction))
      → Steady st log keeps d (session_frame_done d s o p).0
  unfolding session_frame_done
  session_frame_done-Steady d s o (c, err e) = record { sequencer = refl; logs = λ r. refl }
  session_frame_done-Steady d s o (c, ok actions) = record { sequencer = refl; logs = λ r. refl }

  maybe_answered-Advances :
      (d : ServerDriver S) (o : Option (ServerDriver S × Actions))
      → MaySteady st log keeps d o
      → IsOrdered st log keeps d
      → After (Advances st log keeps d.storage) (maybe_answered cbor to_string st o)
  maybe_answered-Advances d none u i = tt
  maybe_answered-Advances d (some (d', actions)) u i = Steady-Advances st log keeps d d' u i

  handle_opcode-Advances :
      (d : ServerDriver S) (s : ℕ) (c : Connection) (f : Frame) (now clock : ℕ) (o : Option Opcode)
      → IsOrdered st log keeps d
      → HasRoom st log keeps d
      → After
          (Advances st log keeps d.storage)
          (handle_opcode cbor to_string st d s c f now clock o)
  unfolding handle_opcode
  handle_opcode-Advances d s c f now clock (some Opcode.hello) i short =
      Steady-Advances st log keeps d _
        (session_frame_done-Steady d s Opcode.hello (handle_frame cbor c f now)) i
  handle_opcode-Advances d s c f now clock (some Opcode.ping) i short =
      Steady-Advances st log keeps d _
        (session_frame_done-Steady d s Opcode.ping (handle_frame cbor c f now)) i
  handle_opcode-Advances d s c f now clock (some Opcode.pong) i short =
      Steady-Advances st log keeps d _
        (session_frame_done-Steady d s Opcode.pong (handle_frame cbor c f now)) i
  handle_opcode-Advances d s c f now clock (some Opcode.goodbye) i short =
      Steady-Advances st log keeps d _
        (session_frame_done-Steady d s Opcode.goodbye (handle_frame cbor c f now)) i
  handle_opcode-Advances d s c f now clock (some Opcode.sync_request) i short =
      maybe_answered-Advances d (handle_sync cbor to_string st d s f now)
        (handle_sync-MaySteady st log keeps cbor to_string d s f now) i
  handle_opcode-Advances d s c f now clock (some Opcode.key_package_publish) i short =
      maybe_answered-Advances (touch d s c now)
        (handle_key_package_publish cbor to_string (touch d s c now) s f now)
        (handle_key_package_publish-MaySteady st log keeps cbor to_string (touch d s c now) s f now)
        i
  handle_opcode-Advances d s c f now clock (some Opcode.key_package_fetch) i short =
      Steady-Advances st log keeps (touch d s c now) _
        (handle_key_package_fetch-Steady st log keeps cbor to_string (touch d s c now) s f now) i
  handle_opcode-Advances d s c f now clock (some Opcode.group_info) i short =
      Steady-Advances st log keeps (touch d s c now) _
        (handle_group_info_publish-Steady st log keeps cbor to_string (touch d s c now) s f now) i
  handle_opcode-Advances d s c f now clock (some Opcode.group_info_request) i short =
      Steady-Advances st log keeps d (touch d s c now)
        (record { sequencer = refl; logs = λ r. refl }) i
  handle_opcode-Advances d s c f now clock (some Opcode.welcome) i short =
      Steady-Advances st log keeps (touch d s c now) _
        (welcome-Steady st log keeps (touch d s c now) (Header.recipient_id f.header)
          (Header.room_id f.header) f now
          (session_id_for_user d.registry (Header.recipient_id f.header)))
        i
  handle_opcode-Advances d s c f now clock (some Opcode.app_message) i short =
      route_frame-Advances st log keeps cbor to_string (touch d s c now) s f now i short
  handle_opcode-Advances d s c f now clock (some o) i short =
      handle_room_frame-Advances st log keeps cbor to_string (touch d s c now) s f (some o) now
        clock i short
  handle_opcode-Advances d s c f now clock none i short =
      handle_room_frame-Advances st log keeps cbor to_string (touch d s c now) s f none now clock i
        short

  handle_frame_received-Advances :
      (d : ServerDriver S) (s : ℕ) (f : Frame) (now clock : ℕ)
      → IsOrdered st log keeps d
      → HasRoom st log keeps d
      → After
          (Advances st log keeps d.storage)
          (handle_frame_received cbor to_string st d s f now clock)
  unfolding handle_frame_received
  handle_frame_received-Advances d s f now clock i short =
      elim (Option-cases (lookup s d.connections)) [
        | inl e ↦
            rw (e, handle_frame_received)
              (Steady-Advances st log keeps d d (unmoved st log keeps d) i)
        | inr (c, e) ↦
            rw (e, handle_frame_received)
              (handle_opcode-Advances d s c f now clock (opcode_enum f.header) i short)
      ]

  accepted-Steady :
      (d : ServerDriver S) (s now : ℕ)
      → Steady st log keeps d (handle_connection_accepted d s now).0
  unfolding handle_connection_accepted
  accepted-Steady d s now =
      elim (Bool-cases (leb d.config.max_connections (length d.connections))) [
        | inl full ↦ rw full (unmoved st log keeps d)
        | inr free ↦ rw free (record { sequencer = refl; logs = λ r. refl })
      ]

  closed-Steady :
      (d : ServerDriver S) (s : ℕ) (reason : Text) (now : ℕ)
      → Steady st log keeps d (handle_connection_closed d s reason now).0
  closed-Steady d s reason now = record {
    sequencer = ap (λ (p : RoomManager × S). p.0.sequencer) (ordering-closed d s reason now);
    logs = λ r. ap (λ (p : RoomManager × S). log p.1 r) (ordering-closed d s reason now);
  }

  -- Every event of a server whose logs are in order leaves them in order: each frame of a log
  -- carries its place as its index, the cached indices are current, and each log is what it was
  -- before, with one frame more at its end at most. The logs are assumed to have room for a frame
  -- below the end of u64, and the store to keep logs. An event that panics leaves no driver.
  pub process_event-Advances :
      (d : ServerDriver S) (event : ServerEvent) (now clock : ℕ)
      → ((room : ℕ) → length (log d.storage room) < u64_max)
      → IsOrdered st log keeps d
      → After (Advances st log keeps d.storage) (process_event cbor to_string st d event now clock)
  unfolding process_event handle_tick
  process_event-Advances d (connection_accepted s) now clock short i =
      Steady-Advances st log keeps d _ (accepted-Steady d s now) i
  process_event-Advances d (frame_received s f) now clock short i =
      handle_frame_received-Advances d s f now clock i short
  process_event-Advances d (connection_closed s reason) now clock short i =
      Steady-Advances st log keeps d _ (closed-Steady d s reason now) i
  process_event-Advances d timer_tick now clock short i =
      Steady-Advances st log keeps d (handle_tick d now).0
        (record { sequencer = refl; logs = λ r. refl }) i
