-- ===== src/Tui/Input.antt =====
-- crates/lockframe-tui/src/input.rs: the line that the user types. The cursor is a place in the bytes of the
-- line, as the code keeps it; `none` is the panic of an insertion or a removal inside a character or
-- behind the end.
pub mod Ascii
use lockframe.Common.{
  ℕ, zero, suc, ◌+◌, ◌-◌, ◌/◌, ◌%◌, List, [], ◌∷◌, ◌++◌, Bool, true, false, not, Option, none, some,
  ◌==◌, ltb, leb, if◌then◌else◌, length, is_empty, Map, get_elem?,
}
use lockframe.App.State.{
  App, AppAction, RoomState, render, quit, already_connected, no_active_room,
  no_active_room_to_send, unknown_command, invalid_args, set_status, creates_room, joins_room,
  leaves_room, publishes_key_package, adds_member, sends_message, quits, set_active_room,
}
use lockframe.Tui.Commands.{String, Command, parse}
use lockframe.Tui.Commands

pub data KeyInput : Type 0 where
  char : ℕ → KeyInput
  enter backspace delete tab esc left right up down home end : KeyInput

pub record InputState : Type 0 where
  pub buffer : String
  pub cursor : ℕ

unfoldable pub new : InputState
new = record { buffer = []; cursor = 0 }

-- `char::len_utf8`
unfoldable pub len_utf8 : ℕ → ℕ
len_utf8 c = if ltb c 128 then 1 else if ltb c 2048 then 2 else if ltb c 65536 then 3 else 4

-- `String::len`, in bytes.
unfoldable pub byte_len : String → ℕ
byte_len [] = 0
byte_len (c ∷ text) = len_utf8 c + byte_len text

abbrev cons_some : ℕ → Option String → Option String
cons_some c none = none
cons_some c (some text) = some (c ∷ text)

-- `String::insert`
unfoldable pub insert_at : String → ℕ → ℕ → Option String
insert_at [] at c = if at == 0 then some (c ∷ []) else none
insert_at (d ∷ text) at c =
    let rest = insert_at text (at - len_utf8 d) c in
    if at == 0 then some (c ∷ d ∷ text) else if ltb at (len_utf8 d) then none else cons_some d rest

-- `String::remove`
unfoldable pub remove_at : String → ℕ → Option String
remove_at [] at = none
remove_at (d ∷ text) at =
    let rest = remove_at text (at - len_utf8 d) in
    if at == 0 then some text else if ltb at (len_utf8 d) then none else cons_some d rest

-- `String::into_bytes` of a character and of a text.
utf8 : ℕ → List ℕ
utf8 c =
    if ltb c 128
    then c ∷ []
    else if ltb c 2048
    then (192 + c / 64) ∷ (128 + c % 64) ∷ []
    else if ltb c 65536
    then (224 + c / 4096) ∷ (128 + c / 64 % 64) ∷ (128 + c % 64) ∷ []
    else (240 + c / 262144) ∷ (128 + c / 4096 % 64) ∷ (128 + c / 64 % 64) ∷ (128 + c % 64) ∷ []

into_bytes : String → List ℕ
unfolding utf8
into_bytes [] = []
into_bytes (c ∷ text) = utf8 c ++ into_bytes text

abbrev Handled : Type 0
Handled = App × List AppAction

on_room : App → Option ℕ → (ℕ → Handled) → Handled
on_room app none act = (set_status app no_active_room, render ∷ [])
on_room app (some id) act = act id

sent_to : App → Option ℕ → String → Handled
unfolding into_bytes
sent_to app none content = (set_status app no_active_room_to_send, render ∷ [])
sent_to app (some id) content = (app, sends_message id (into_bytes content))

-- What `handle_enter` does with a command.
on_command : App → Command → Handled
unfolding on_room sent_to
on_command app Commands.connect = (set_status app already_connected, render ∷ [])
on_command app (Commands.create_room id) = creates_room app id
on_command app (Commands.join_room id) = (app, joins_room id)
on_command app Commands.leave_active_room =
    on_room app app.active_room (λ id. (app, leaves_room id))
on_command app Commands.publish_key_package = (app, publishes_key_package)
on_command app (Commands.add_member user) =
    on_room app app.active_room (λ id. adds_member app id user)
on_command app Commands.quit = (app, quits)
on_command app (Commands.message content) = sent_to app app.active_room content
on_command app (Commands.unknown input) = (set_status app (unknown_command input), render ∷ [])
on_command app (Commands.invalid_args name problem) =
    (set_status app (invalid_args name problem), render ∷ [])

entered : App → String → Handled
unfolding on_command
entered app [] = (app, [])
entered app (c ∷ text) = on_command app (parse (c ∷ text))

unfoldable pub handle_enter : InputState → App → (InputState × App) × List AppAction
unfolding entered
handle_enter s app =
    let (app', actions) = entered app s.buffer in
    ((record { buffer = []; cursor = 0 }, app'), actions)

-- The ids of the rooms in order.
insert_sorted : ℕ → List ℕ → List ℕ
insert_sorted id [] = id ∷ []
insert_sorted id (j ∷ ids) = if leb id j then id ∷ j ∷ ids else j ∷ insert_sorted id ids

sorted_ids : Map RoomState → List ℕ
unfolding insert_sorted
sorted_ids [] = []
sorted_ids ((id, room) ∷ rooms) = insert_sorted id (sorted_ids rooms)

-- The first of the ids behind the active one, or the first of all.
after : Option ℕ → ℕ → List ℕ → Option ℕ
after none first ids = some first
after (some active) first [] = some first
after (some active) first (id ∷ []) = some first
after (some active) first (id ∷ next ∷ ids) =
    if id == active then some next else after (some active) first (next ∷ ids)

next_of : Option ℕ → List ℕ → Option ℕ
unfolding after
next_of active [] = none
next_of active (first ∷ ids) = after active first (first ∷ ids)

chosen : App → Option ℕ → Handled
chosen app none = (app, [])
chosen app (some id) = (set_active_room app id, render ∷ [])

unfoldable pub handle_tab : App → App × List AppAction
unfolding chosen next_of sorted_ids
handle_tab app = chosen app (next_of app.active_room (sorted_ids app.rooms))

abbrev typed : App → Option InputState → Option ((InputState × App) × List AppAction)
typed app none = none
typed app (some s) = some ((s, app), render ∷ [])

-- A text and a cursor make a line.
abbrev line_of : Option String → ℕ → Option InputState
line_of none cursor = none
line_of (some text) cursor = some (record { buffer = text; cursor = cursor })

pressed : InputState → KeyInput → Option InputState
pressed s (char c) = line_of (insert_at s.buffer s.cursor c) (s.cursor + 1)
pressed s backspace =
    if s.cursor == 0 then some s else line_of (remove_at s.buffer (s.cursor - 1)) (s.cursor - 1)
pressed s delete =
    if ltb s.cursor (byte_len s.buffer)
    then line_of (remove_at s.buffer s.cursor) s.cursor
    else some s
pressed s left = some (record s { cursor = s.cursor - 1 })
pressed s right =
    if ltb s.cursor (byte_len s.buffer) then some (record s { cursor = s.cursor + 1 }) else some s
pressed s home = some (record s { cursor = 0 })
pressed s end = some (record s { cursor = byte_len s.buffer })
pressed s _ = some s

unfoldable pub handle_key :
    InputState → KeyInput → App → Option ((InputState × App) × List AppAction)
unfolding pressed
handle_key s enter app = some (handle_enter s app)
handle_key s tab app = let (app', actions) = handle_tab app in some ((s, app'), actions)
handle_key s esc app = some ((s, app), quit ∷ [])
handle_key s up app = some ((s, app), [])
handle_key s down app = some ((s, app), [])
handle_key s key app = typed app (pressed s key)
