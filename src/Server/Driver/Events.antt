-- ===== src/Server/Driver/Events.antt =====
-- The events of the driver (crates/lockframe-server/src/driver.rs), and the dispatch of a frame by its
-- opcode.
pub mod Soundness
pub mod Ordering
use lockframe.Common.{ℕ, Option, none, some, Result, ok, err, lookup}
use lockframe.Proto.Opcode.{Opcode}
use lockframe.Proto.Header.{opcode_enum}
use lockframe.Proto.Header
use lockframe.Proto.Frame.{Frame}
use lockframe.Proto.Payload.Types.{Text}
use lockframe.Proto.Payload.Coder.{Cbor}
use lockframe.Core.Connection.{Connection, handle_frame}
use lockframe.Server.Storage.{Storage}
use lockframe.Server.Registry.{session_id_for_user}
use lockframe.Server.Driver.Types.{
  ServerDriver, ServerEvent, ServerError, ErrorText, connection_accepted, frame_received,
  connection_closed, timer_tick, session_not_found,
}
use lockframe.Server.Driver.Replies.{Actions}
use lockframe.Server.Driver.Requests.{
  handle_sync, handle_key_package_publish, handle_key_package_fetch, handle_group_info_publish,
  handle_group_info_request,
}
use lockframe.Server.Driver.Sessions.{
  handle_connection_accepted, handle_connection_closed, handle_tick, session_frame_done, touch,
}
use lockframe.Server.Driver.Rooms.{welcome, route_frame, handle_room_frame}

-- The driver after an event, with the actions or the error; `none` is a panic.
abbrev pub Outcome : Type 0 → Type 0
Outcome S = Option (ServerDriver S × Result ServerError Actions)

module _ (cbor : Cbor) (to_string : ErrorText → Text) {S : Type 0} (st : Storage S) where
  abbrev answered : ServerDriver S × Actions → Outcome S
  answered (d, actions) = some (d, ok actions)

  abbrev maybe_answered : Option (ServerDriver S × Actions) → Outcome S
  maybe_answered none = none
  maybe_answered (some outcome) = answered outcome

  -- The arms of `handle_frame_received`, on the connection of the session.
  unfoldable pub handle_opcode :
      ServerDriver S → ℕ → Connection → Frame → ℕ → ℕ → Option Opcode → Outcome S
  unfolding session_frame_done welcome
  handle_opcode d session_id c frame now clock (some Opcode.hello) =
      some (session_frame_done d session_id Opcode.hello (handle_frame cbor c frame now))
  handle_opcode d session_id c frame now clock (some Opcode.ping) =
      some (session_frame_done d session_id Opcode.ping (handle_frame cbor c frame now))
  handle_opcode d session_id c frame now clock (some Opcode.pong) =
      some (session_frame_done d session_id Opcode.pong (handle_frame cbor c frame now))
  handle_opcode d session_id c frame now clock (some Opcode.goodbye) =
      some (session_frame_done d session_id Opcode.goodbye (handle_frame cbor c frame now))
  handle_opcode d session_id c frame now clock (some Opcode.sync_request) =
      maybe_answered (handle_sync cbor to_string st d session_id frame now)
  handle_opcode d session_id c frame now clock (some Opcode.key_package_publish) =
      maybe_answered
        (handle_key_package_publish cbor to_string (touch d session_id c now) session_id frame now)
  handle_opcode d session_id c frame now clock (some Opcode.key_package_fetch) =
      answered
        (handle_key_package_fetch cbor to_string (touch d session_id c now) session_id frame now)
  handle_opcode d session_id c frame now clock (some Opcode.group_info) =
      answered (
        handle_group_info_publish cbor to_string st (touch d session_id c now) session_id frame now)
  handle_opcode d session_id c frame now clock (some Opcode.group_info_request) =
      let d' = touch d session_id c now in
      some (d', ok (handle_group_info_request cbor to_string st d' session_id frame now))
  handle_opcode d session_id c frame now clock (some Opcode.welcome) =
      let recipient_id = Header.recipient_id frame.header in
      answered (
        welcome (touch d session_id c now) recipient_id (Header.room_id frame.header) frame now
          (session_id_for_user d.registry recipient_id))
  handle_opcode d session_id c frame now clock (some Opcode.app_message) =
      some (route_frame cbor to_string st (touch d session_id c now) session_id frame now)
  handle_opcode d session_id c frame now clock code = some (
      handle_room_frame cbor to_string st (touch d session_id c now) session_id frame code now
        clock)

  unfoldable pub handle_frame_received : ServerDriver S → ℕ → Frame → ℕ → ℕ → Outcome S
  handle_frame_received d session_id frame now clock = elim (lookup session_id d.connections) [
    | none ↦ some (d, err (session_not_found session_id))
    | some c ↦ handle_opcode d session_id c frame now clock (opcode_enum frame.header)
  ]

  unfoldable pub process_event : ServerDriver S → ServerEvent → ℕ → ℕ → Outcome S
  process_event d (connection_accepted session_id) now clock =
      answered (handle_connection_accepted d session_id now)
  process_event d (frame_received session_id frame) now clock =
      handle_frame_received d session_id frame now clock
  process_event d (connection_closed session_id reason) now clock =
      answered (handle_connection_closed d session_id reason now)
  process_event d timer_tick now clock = answered (handle_tick d now)
