-- ===== src/Server/Driver/Sessions.antt =====
-- Connections and their sessions in the driver (crates/lockframe-server/src/driver.rs): opening,
-- closing, ticking, and what a session frame leaves behind.
pub mod Soundness
pub mod Greeting
use lockframe.Common.{
  ℕ, List, [], ◌∷◌, ◌++◌, map, Option, none, some, leb, if◌then◌else◌, Result, ok, err, length, Map,
  insert, remove,
}
use lockframe.Proto.Opcode.{Opcode}
use lockframe.Proto.Payload.Types.{Text}
use lockframe.Core.Connection.{
  Connection, ConnectionAction, ConnectionError, send_frame, close_with, set_session_id,
  update_activity, handle_frame, tick,
}
use lockframe.Core.Connection
use lockframe.Server.Registry.{
  ConnectionRegistry, SessionInfo, new_info, register_session, unregister_session,
  update_session_info, subscribe, unsubscribe, sessions, session_id_for_user,
}
use lockframe.Server.Registry
use lockframe.Server.RoomManager.{
  RoomManager, RoomAction, RoomError, has_room, process_frame, recover_room,
}
use lockframe.Server.RoomManager
use lockframe.Server.KeyPackages
use lockframe.Server.Driver.Types.{
  ServerConfig, ServerDriver, ServerAction, ServerError, send_to_session, close_connection,
  log_line, debug, info, connection_failed, accepted, closed, of_connection,
  max_connections_exceeded,
}
use lockframe.Server.Driver.Replies.{Actions}

unfoldable pub of_action : ℕ → ConnectionAction → ServerAction
of_action session_id (send_frame frame) = send_to_session session_id frame
of_action session_id (close_with reason) = close_connection session_id (of_connection reason)

abbrev pub or_else : Option ℕ → Option ℕ → Option ℕ
or_else none other = other
or_else (some x) other = some x

-- Every connection ticks, in the order of the map.
unfoldable pub tick_all : Map Connection → ℕ → Map Connection × Actions
tick_all [] now = ([], [])
tick_all ((session_id, c) ∷ rest) now =
    let (c', actions) = tick c now in
    let (rest', more) = tick_all rest now in
    ((session_id, c') ∷ rest', map (of_action session_id) actions ++ more)

-- After a Hello the session gets the user that the client named, or else its own id.
identify_as : Option ℕ → ℕ → ConnectionRegistry → ConnectionRegistry
identify_as none session_id g = g
identify_as (some user_id) session_id g =
    (update_session_info g session_id (Registry.authenticated user_id)).0

unfoldable pub identify : Opcode → ℕ → Connection → ConnectionRegistry → ConnectionRegistry
unfolding identify_as
identify Opcode.hello session_id c g =
    identify_as (or_else c.client_sender_id c.session_id) session_id g
identify _ session_id c g = g

module _ {S : Type 0} where
  unfoldable pub new : S → ServerConfig → ServerDriver S
  new s config = record {
    connections = [];
    registry = Registry.new;
    room_manager = RoomManager.new;
    key_package_registry = KeyPackages.new;
    storage = s;
    config = config;
  }

  unfoldable pub handle_connection_accepted : ServerDriver S → ℕ → ℕ → ServerDriver S × Actions
  handle_connection_accepted d session_id now =
      if leb d.config.max_connections (length d.connections)
      then (d, close_connection session_id max_connections_exceeded ∷ [])
      else (
        record d {
          connections =
              insert session_id (set_session_id (Connection.new now d.config.connection) session_id)
                d.connections;
          registry = (register_session d.registry session_id new_info).0;
        },
        log_line debug (accepted session_id) now ∷ [],
      )

  closed_with :
      ServerDriver S
      → ℕ
      → Text
      → ℕ
      → ConnectionRegistry × Option (SessionInfo × List ℕ)
      → ServerDriver S × Actions
  closed_with d session_id reason now (registry, none) =
      (record d { connections = remove session_id d.connections; registry = registry }, [])
  closed_with d session_id reason now (registry, some (old, rooms)) = (
    record d { connections = remove session_id d.connections; registry = registry },
    log_line info (closed session_id reason (length rooms)) now ∷ [],
  )

  -- The connection that is removed is closed, and dropped.
  unfoldable pub handle_connection_closed : ServerDriver S → ℕ → Text → ℕ → ServerDriver S × Actions
  unfolding closed_with
  handle_connection_closed d session_id reason now =
      closed_with d session_id reason now (unregister_session d.registry session_id)

  unfoldable pub handle_tick : ServerDriver S → ℕ → ServerDriver S × Actions
  handle_tick d now =
      let (connections, actions) = tick_all d.connections now in
      (record d { connections = connections }, actions)

  unfoldable pub session_frame_done :
      ServerDriver S
      → ℕ
      → Opcode
      → Connection × Result ConnectionError (List ConnectionAction)
      → ServerDriver S × Result ServerError Actions
  session_frame_done d session_id code (c, err e) = (
    record d { connections = insert session_id c d.connections },
    err (connection_failed session_id e),
  )
  session_frame_done d session_id code (c, ok actions) = (
    record d {
      connections = insert session_id c d.connections;
      registry = identify code session_id c d.registry;
    },
    ok (map (of_action session_id) actions),
  )

  abbrev pub touch : ServerDriver S → ℕ → Connection → ℕ → ServerDriver S
  touch d session_id c now = record d {
    connections = insert session_id (update_activity c now) d.connections;
  }
