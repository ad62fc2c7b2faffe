-- ===== src/Examples/Serving.antt =====
-- A server at work (crates/lockframe-server/src/driver.rs): room 7, with session 5 of user 9.
use lockframe.Common.{
  from_be_bytes, to_be_bytes, ◌≡◌, ◌<◌, refl, [], ◌∷◌, ◌++◌, some, ok, true, false, arith, length,
  lookup, contains_key, insert, none, ℕ, ◌==◌, if◌then◌else◌,
}
use lockframe.Proto.Opcode.{Opcode, to_u16, from_u16}
use lockframe.Proto.Header
use lockframe.Proto.Header.{set_room_id, set_recipient_id, set_epoch, opcode_enum}
use lockframe.Proto.Frame
use lockframe.Proto.Frame.{Frame}
use lockframe.Proto.Payload.Types.{Text, Hello}
use lockframe.Proto.Payload.Coder.{Cbor}
use lockframe.Proto.Payload.{encode, from_frame}
use lockframe.Proto.Payload
use lockframe.Core.Connection.{Connection, init, set_session_id, hello_reply_payload}
use lockframe.Core.Connection.Handshake.{reply_frame}
use lockframe.Core.Connection
use lockframe.Server.Registry.{authenticated, sessions_in_room, is_subscribed, session_id_for_user}
use lockframe.Server.Registry
use lockframe.Server.RoomManager.{has_room}
use lockframe.Server.Sequencer.{rebuild_frame_with_index}
use lockframe.Server.Memory
use lockframe.Server.Memory.{MemoryStorage, memory}
use lockframe.Server.Memory.Logs.{log, memory-KeepsLogs}
use lockframe.Server.KeyPackages
use lockframe.Server.Driver.Types.{
  ServerDriver, ErrorText, default_config, connection_accepted, frame_received, broadcast,
  send_to_session, log_line, debug, subscribed_via_welcome,
}
use lockframe.Server.Driver.Sessions.{new, handle_connection_accepted}
use lockframe.Server.Driver.Rooms.{recover_from_storage}
use lockframe.Server.Driver.Events.{process_event}
use lockframe.Server.Driver.Events.Soundness.{After, started, served, recovered, reachable-IsSound}
use lockframe.Server.Driver.Events.Ordering.{process_event-Advances}
use lockframe.Server.Driver.Invariant.{IsSound}
use lockframe.Server.Driver.Logs.{Advances}
use lockframe.Server.Driver.Delivery.{
  app_message_delivered, welcome_delivered, external_commit_subscribes,
}
use lockframe.Server.Driver.Sessions.Greeting.{hello_identifies}
use lockframe.Examples.Coder
use lockframe.Examples.Coder.{cbor, write_reply}
use lockframe.Examples.Rooms.{
  manager, contents, frame, consistent, nothing_cached, frame_valid, log_short,
}

abbrev to_string : ErrorText → Text
to_string e = []

abbrev connection : Connection
connection = Connection.new 0 Connection.default_config

abbrev server : ServerDriver MemoryStorage
server = record {
  connections = (5, connection) ∷ [];
  registry = record {
    sessions = (5, authenticated 9) ∷ [];
    room_subscriptions = (7, 5 ∷ []) ∷ [];
    session_rooms = (5, 7 ∷ []) ∷ [];
    user_sessions = (9, 5) ∷ [];
  };
  room_manager = manager;
  key_package_registry = KeyPackages.new;
  storage = contents;
  config = default_config;
}

connected : lookup 5 server.connections ≡ some connection
unfolding lookup
connected = refl

in_session : contains_key 5 server.registry.sessions ≡ true
unfolding lookup
in_session = refl

short : (room : ℕ) → length (log contents room) < 18446744073709551615
unfolding lookup
short room = omega arith

is_message : opcode_enum frame.header ≡ some Opcode.app_message
unfolding opcode_enum Header.opcode from_u16 to_u16 Frame.new set_room_id Header.new from_be_bytes
    to_be_bytes
is_message = refl

frame_room_known : has_room manager (Header.room_id frame.header) ≡ true
unfolding has_room lookup Header.room_id Frame.new set_room_id Header.new from_be_bytes to_be_bytes
frame_room_known = refl

app_message_delivered_example :
    (d' : ServerDriver MemoryStorage) × (process_event cbor to_string memory server
        (frame_received 5 frame)
        3
        0
      ≡ some (
        d',
        ok (
            broadcast
              (sessions_in_room server.registry (Header.room_id frame.header))
              (rebuild_frame_with_index frame (length (log contents (Header.room_id frame.header))))
            ∷ []),
      ))
    × (log d'.storage (Header.room_id frame.header)
        ≡ log contents (Header.room_id frame.header)
          ++ rebuild_frame_with_index frame (length (log contents (Header.room_id frame.header)))
            ∷ [])
app_message_delivered_example =
    app_message_delivered memory log memory-KeepsLogs cbor to_string server 5 connection frame 3 0
      connected is_message nothing_cached frame_room_known frame_valid log_short

abbrev welcome_frame : Frame
welcome_frame = Frame.new (set_recipient_id (set_room_id (Header.new Opcode.welcome) 7) 9) (1 ∷ [])

is_welcome_frame : opcode_enum welcome_frame.header ≡ some Opcode.welcome
unfolding opcode_enum Header.opcode from_u16 to_u16 Frame.new set_room_id set_recipient_id
    Header.new from_be_bytes to_be_bytes
is_welcome_frame = refl

recipient_is_5 :
    session_id_for_user server.registry (Header.recipient_id welcome_frame.header) ≡ some 5
unfolding session_id_for_user lookup Header.recipient_id Frame.new set_room_id set_recipient_id
    Header.new from_be_bytes to_be_bytes
recipient_is_5 = refl

welcome_delivered_example :
    (d' : ServerDriver MemoryStorage) × (process_event cbor to_string memory server
        (frame_received 5 welcome_frame)
        3
        0
      ≡ some (
        d',
        ok (
            log_line debug
              (subscribed_via_welcome 5
                (Header.recipient_id welcome_frame.header)
                (Header.room_id welcome_frame.header))
              3
            ∷ send_to_session 5 welcome_frame
            ∷ []),
      ))
    × (is_subscribed d'.registry 5 (Header.room_id welcome_frame.header) ≡ true)
    × (d'.storage ≡ contents)
welcome_delivered_example =
    welcome_delivered memory cbor to_string server 5 5 connection welcome_frame 3 0 connected
      is_welcome_frame recipient_is_5 in_session

-- A commit of an epoch that no frame may have.
abbrev commit_frame : Frame
commit_frame = Frame.new (set_epoch (set_room_id (Header.new Opcode.external_commit) 7) 1000001) []

is_commit_frame : opcode_enum commit_frame.header ≡ some Opcode.external_commit
unfolding opcode_enum Header.opcode from_u16 to_u16 Frame.new set_room_id set_epoch Header.new
    from_be_bytes to_be_bytes
is_commit_frame = refl

commit_room_known : has_room manager (Header.room_id commit_frame.header) ≡ true
unfolding has_room lookup Header.room_id Frame.new set_room_id set_epoch Header.new from_be_bytes
    to_be_bytes
commit_room_known = refl

external_commit_subscribes_example :
    After
      (λ d'. is_subscribed d'.registry 5 (Header.room_id commit_frame.header) ≡ true)
      (process_event cbor to_string memory server (frame_received 5 commit_frame) 3 0)
external_commit_subscribes_example =
    external_commit_subscribes memory cbor to_string server 5 connection commit_frame 3 0 connected
      in_session is_commit_frame commit_room_known

process_event-Advances_example :
    After
      (Advances memory log memory-KeepsLogs contents)
      (process_event cbor to_string memory server (frame_received 5 frame) 3 0)
process_event-Advances_example =
    process_event-Advances memory log memory-KeepsLogs cbor to_string server
      (frame_received 5 frame) 3 0 short consistent

-- A server that has recovered its rooms and lets a connection in.
abbrev recovered_server : ServerDriver MemoryStorage
recovered_server = (recover_from_storage memory (new contents default_config)).0

abbrev connected_server : ServerDriver MemoryStorage
connected_server = (handle_connection_accepted recovered_server 5 1).0

not_yet_connected : contains_key 5 recovered_server.connections ≡ false
unfolding lookup new recover_from_storage Memory.list_rooms
not_yet_connected = refl

accepts :
    process_event cbor to_string memory recovered_server (connection_accepted 5) 1 0
    ≡ some (connected_server, ok (handle_connection_accepted recovered_server 5 1).1)
unfolding process_event
accepts = refl

reachable-IsSound_example : IsSound connected_server
reachable-IsSound_example = reachable-IsSound cbor to_string memory default_config (
    served (recovered (started contents)) (connection_accepted 5) 1 0
      (ok (handle_connection_accepted recovered_server 5 1).1) not_yet_connected accepts)

connected_server-IsSound : IsSound connected_server
connected_server-IsSound = reachable-IsSound cbor to_string memory default_config (
    served (recovered (started contents)) (connection_accepted 5) 1 0
      (ok (handle_connection_accepted recovered_server 5 1).1) not_yet_connected accepts)

-- A coder that reads every byte string as the Hello of user 9.
abbrev hello_of_9 : Hello
hello_of_9 = record { version = 1; capabilities = []; sender_id = some 9; auth_token = none }

abbrev greeting : Cbor
greeting = record Coder.cbor {
  hello = record { into_writer = λ h. none; from_reader = λ bytes. some hello_of_9 };
}

abbrev hello_frame : Frame
hello_frame = Frame.new (Header.new Opcode.hello) (1 ∷ [])

abbrev fresh_connection : Connection
fresh_connection = set_session_id (Connection.new 1 default_config.connection) 5

fresh_connected : lookup 5 connected_server.connections ≡ some fresh_connection
unfolding handle_connection_accepted recover_from_storage new lookup insert Memory.list_rooms
fresh_connected = refl

is_fresh : fresh_connection.state ≡ init
unfolding Connection.new set_session_id
is_fresh = refl

is_hello : opcode_enum hello_frame.header ≡ some Opcode.hello
unfolding opcode_enum Header.opcode from_u16 to_u16 Frame.new Header.new from_be_bytes to_be_bytes
is_hello = refl

hello_read : from_frame greeting hello_frame ≡ ok (Payload.hello hello_of_9)
unfolding from_frame Frame.new Header.new opcode_enum Header.opcode from_u16 to_u16 from_be_bytes
    to_be_bytes Payload.decode
hello_read = refl

reply_written : encode greeting (hello_reply_payload greeting 5) ≡ ok (5 ∷ [])
unfolding encode write_reply
reply_written = refl

no_session_of_9 : session_id_for_user connected_server.registry 9 ≡ none
unfolding session_id_for_user handle_connection_accepted recover_from_storage new lookup
    Memory.list_rooms Registry.register_session Registry.new Registry.new_info
no_session_of_9 = refl

hello_identifies_example :
    (d' : ServerDriver MemoryStorage) × (process_event greeting to_string memory connected_server
        (frame_received 5 hello_frame)
        2
        0
      ≡ some (d', ok (send_to_session 5 (reply_frame greeting 5 (5 ∷ [])) ∷ [])))
    × ((c' : Connection) × (lookup 5 d'.connections ≡ some c')
        × (c'.state ≡ Connection.authenticated))
    × ((v : ℕ)
        → session_id_for_user d'.registry v
          ≡ (if 9 == v then some 5 else session_id_for_user connected_server.registry v))
hello_identifies_example =
    hello_identifies memory greeting to_string connected_server 5 fresh_connection hello_frame
      hello_of_9 (5 ∷ []) 2 0 connected_server-IsSound fresh_connected is_fresh is_hello hello_read
      refl reply_written no_session_of_9
