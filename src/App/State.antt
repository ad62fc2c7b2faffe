-- ===== src/App/State.antt =====
-- crates/lockframe-app/src/{app,state,action,event}.rs: the state machine of the application. The text of
-- the status line stands as data. The rooms are listed in the order of the map.
pub mod Rooms
use lockframe.Common.{
  ℕ, ◌≡◌, List, [], ◌∷◌, ◌++◌, Bool, true, false, not, Option, none, some, is_some, ◌==◌,
  if◌then◌else◌, Map, lookup, insert, remove, contains_key, set_insert, set_remove,
}
use lockframe.Proto.Payload.Types.{Text}

pub data ConnectionState : Type 0 where
  disconnected connecting : ConnectionState
  connected : (session_id sender_id : ℕ) → ConnectionState

pub record Message : Type 0 where
  pub sender_id : ℕ
  pub content : List ℕ

pub record RoomState : Type 0 where
  pub room_id : ℕ
  pub messages : List Message
  pub members : List ℕ
  pub unread : Bool

pub data AppAction : Type 0 where
  render quit publish_key_package : AppAction
  connect : Text → AppAction
  create_room join_room leave_room : ℕ → AppAction
  send_message : ℕ → List ℕ → AppAction
  add_member : (room_id user_id : ℕ) → AppAction

pub data AppEvent : Type 0 where
  tick connecting : AppEvent
  resize : (cols rows : ℕ) → AppEvent
  connected : (session_id sender_id : ℕ) → AppEvent
  room_joined room_left : ℕ → AppEvent
  message_received : (room_id sender_id : ℕ) → List ℕ → AppEvent
  member_added member_removed : (room_id member_id : ℕ) → AppEvent
  error : Text → AppEvent

-- The commands with an argument, and what may be wrong with it.
pub data CommandName : Type 0 where
  create join add : CommandName

pub data ArgsText : Type 0 where
  invalid_room_id invalid_user_id usage : ArgsText

pub data StatusText : Type 0 where
  joined_room creating_room adding_user added_member : ℕ → StatusText
  error : Text → StatusText
  already_connected no_active_room no_active_room_to_send : StatusText
  unknown_command : List ℕ → StatusText
  invalid_args : CommandName → ArgsText → StatusText

pub record App : Type 0 where
  pub state : ConnectionState
  pub server_addr : Text
  pub rooms : Map RoomState
  pub active_room : Option ℕ
  pub terminal_size : ℕ × ℕ
  pub status_message : Option StatusText

unfoldable pub new_room : ℕ → RoomState
new_room id = record { room_id = id; messages = []; members = []; unread = false }

unfoldable pub add_message : RoomState → ℕ → List ℕ → RoomState
add_message r sender content = record r {
  messages = r.messages ++ record { sender_id = sender; content = content } ∷ [];
}

unfoldable pub new : Text → App
new server_addr = record {
  state = disconnected;
  server_addr = server_addr;
  rooms = [];
  active_room = none;
  terminal_size = (80, 24);
  status_message = none;
}

abbrev pub is_active : Option ℕ → ℕ → Bool
is_active none id = false
is_active (some active) id = active == id

abbrev pub first_room : Map RoomState → Option ℕ
first_room [] = none
first_room ((id, r) ∷ rooms) = some id

-- `get_mut` and a change of the room, if it is there.
unfoldable pub with_room : Map RoomState → ℕ → (RoomState → RoomState) → Map RoomState
with_room rooms id change = elim (lookup id rooms) [
  | none ↦ rooms
  | some r ↦ insert id (change r) rooms
]

unfoldable pub receive : Option ℕ → ℕ → ℕ → List ℕ → RoomState → RoomState
receive active id sender content r =
    let r' = add_message r sender content in
    if is_active active id then r' else record r' { unread = true }

unfoldable pub handle : App → AppEvent → App × List AppAction
handle a tick = (a, [])
handle a (resize cols rows) = (record a { terminal_size = (cols, rows) }, render ∷ [])
handle a connecting = (record a { state = connecting }, render ∷ [])
handle a (connected session_id sender) =
    (record a { state = connected session_id sender }, render ∷ [])
handle a (room_joined id) =
    let known = contains_key id a.rooms in
    (
      record a {
        rooms = if known then a.rooms else insert id (new_room id) a.rooms;
        active_room = if is_some a.active_room then a.active_room else some id;
        status_message = if known then a.status_message else some (joined_room id);
      },
      render ∷ [],
    )
handle a (room_left id) =
    let rest = remove id a.rooms in
    (
      record a {
        rooms = rest;
        active_room = if is_active a.active_room id then first_room rest else a.active_room;
      },
      render ∷ [],
    )
handle a (message_received id sender content) = (
  record a { rooms = with_room a.rooms id (receive a.active_room id sender content) },
  render ∷ [],
)
handle a (member_added id member) = (
  record a {
    rooms = with_room a.rooms id (λ r. record r { members = set_insert member r.members });
    status_message = some (added_member member);
  },
  render ∷ [],
)
handle a (member_removed id member) = (
  record a {
    rooms = with_room a.rooms id (λ r. record r { members = set_remove member r.members });
  },
  render ∷ [],
)
handle a (error message) = (record a { status_message = some (error message) }, render ∷ [])

unfoldable pub set_status : App → StatusText → App
set_status a message = record a { status_message = some message }

unfoldable pub connect_to_server : App → App × List AppAction
connect_to_server a = (record a { state = connecting }, connect a.server_addr ∷ render ∷ [])

unfoldable pub creates_room : App → ℕ → App × List AppAction
creates_room a id = (set_status a (creating_room id), create_room id ∷ render ∷ [])

unfoldable pub adds_member : App → ℕ → ℕ → App × List AppAction
adds_member a id user =
    (record a { status_message = some (adding_user user) }, add_member id user ∷ render ∷ [])

unfoldable pub joins_room : ℕ → List AppAction
joins_room id = join_room id ∷ render ∷ []

unfoldable pub leaves_room : ℕ → List AppAction
leaves_room id = leave_room id ∷ render ∷ []

unfoldable pub publishes_key_package : List AppAction
publishes_key_package = publish_key_package ∷ render ∷ []

unfoldable pub sends_message : ℕ → List ℕ → List AppAction
sends_message id content = send_message id content ∷ render ∷ []

unfoldable pub quits : List AppAction
quits = quit ∷ []

unfoldable pub set_active_room : App → ℕ → App
set_active_room a id =
    if contains_key id a.rooms
    then record a {
      active_room = some id;
      rooms = with_room a.rooms id (λ r. record r { unread = false });
    }
    else a

unfoldable pub active_room_state : App → Option RoomState
active_room_state a = elim a.active_room [ none ↦ none | some id ↦ lookup id a.rooms ]
