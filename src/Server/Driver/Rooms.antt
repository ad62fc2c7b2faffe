-- ===== src/Server/Driver/Rooms.antt =====
-- Rooms in the driver (crates/lockframe-server/src/driver.rs): creation, subscription, recovery, and
-- the frames that are ordered by the room manager.
pub mod Effects
pub mod Soundness
pub mod Ordering
use lockframe.Common.{
  ℕ, List, [], ◌∷◌, ◌++◌, Bool, true, false, not, ◌&&◌, Option, none, some, if◌then◌else◌, Result,
  ok, err, ◌>>=◌, map_err, length,
}
use lockframe.Proto.Opcode.{Opcode}
use lockframe.Proto.Header.{opcode_enum}
use lockframe.Proto.Header
use lockframe.Proto.Frame.{Frame}
use lockframe.Proto.Payload.Types.{Text}
use lockframe.Proto.Payload.Coder.{Cbor}
use lockframe.Server.Storage.{Storage}
use lockframe.Server.Registry.{subscribe, unsubscribe, sessions}
use lockframe.Server.RoomManager.{
  RoomManager, RoomAction, RoomError, has_room, process_frame, recover_room,
}
use lockframe.Server.RoomManager
use lockframe.Server.Driver.Types.{
  ServerDriver, ServerError, ErrorText, send_to_session, log_line, debug, info, warn,
  session_not_found, room, storage, subscribed_via_welcome, welcome_not_connected,
  subscribed_via_external_commit, room_created,
}
use lockframe.Server.Driver.Replies.{Actions, process_room_actions}

abbrev is_commit : Opcode → Bool
is_commit Opcode.commit = true
is_commit Opcode.external_commit = true
is_commit _ = false

abbrev unwrap_or : Option ℕ → ℕ → ℕ
unwrap_or none other = other
unwrap_or (some x) other = x

abbrev is_some_commit : Option Opcode → Bool
is_some_commit none = false
is_some_commit (some code) = is_commit code

module _ {S : Type 0} where
  -- A Welcome subscribes its recipient to the room, and goes to the recipient's session alone.
  unfoldable pub welcome : ServerDriver S → ℕ → ℕ → Frame → ℕ → Option ℕ → ServerDriver S × Actions
  welcome d recipient_id room_id frame now none =
      (d, log_line warn (welcome_not_connected recipient_id room_id) now ∷ [])
  welcome d recipient_id room_id frame now (some recipient_session_id) = (
    record d { registry = (subscribe d.registry recipient_session_id room_id).0 },
    log_line debug (subscribed_via_welcome recipient_session_id recipient_id room_id) now
        ∷ send_to_session recipient_session_id frame
        ∷ [],
  )

  -- An external commit subscribes its sender, before the frame is looked at further.
  unfoldable pub subscribe_external :
      ServerDriver S → Option Opcode → ℕ → ℕ → ℕ → ServerDriver S × Actions
  subscribe_external d (some Opcode.external_commit) session_id room_id now = (
    record d { registry = (subscribe d.registry session_id room_id).0 },
    log_line debug (subscribed_via_external_commit session_id room_id) now ∷ [],
  )
  subscribe_external d _ session_id room_id now = (d, [])

  unfoldable pub subscribe_to_room : ServerDriver S → ℕ → ℕ → ServerDriver S × Bool
  subscribe_to_room d session_id room_id =
      let (registry, done) = subscribe d.registry session_id room_id in
      (record d { registry = registry }, done)

  unfoldable pub unsubscribe_from_room : ServerDriver S → ℕ → ℕ → ServerDriver S × Bool
  unsubscribe_from_room d session_id room_id =
      let (registry, done) = unsubscribe d.registry session_id room_id in
      (record d { registry = registry }, done)

  unfoldable pub connection_count : ServerDriver S → ℕ
  connection_count d = length d.connections

module _ {S : Type 0} (st : Storage S) where
  created :
      ServerDriver S
      → ℕ
      → ℕ
      → ℕ
      → RoomManager × S × Result RoomError (Unit {0})
      → ServerDriver S × Result ServerError Actions
  created d room_id session_id now (rm, s, err e) =
      (record d { room_manager = rm; storage = s }, err (room e))
  created d room_id session_id now (rm, s, ok _) = (
    record d {
      room_manager = rm;
      storage = s;
      registry = (subscribe d.registry session_id room_id).0;
    },
    ok (log_line info (room_created room_id session_id) now ∷ []),
  )

  -- The creator is subscribed to the room.
  unfoldable pub create_room :
      ServerDriver S → ℕ → ℕ → ℕ → ℕ → ServerDriver S × Result ServerError Actions
  unfolding created
  create_room d room_id session_id now clock = elim (sessions d.registry session_id) [
    | none ↦ (d, err (session_not_found session_id))
    | some known ↦ created d room_id session_id now (
        RoomManager.create_room st d.room_manager room_id (unwrap_or known.user_id session_id) clock
          d.storage)
  ]

  unfoldable pub recover_all : RoomManager → List ℕ → S → RoomManager × Result RoomError (Unit {0})
  recover_all rm [] s = (rm, ok tt)
  recover_all rm (room_id ∷ room_ids) s =
      let (rm', result) = recover_room st rm room_id s in
      let rest = recover_all rm' room_ids s in elim result [ err e ↦ (rm', err e) | ok _ ↦ rest ]

  unfoldable pub recover_from_storage : ServerDriver S → ServerDriver S × Result ServerError ℕ
  recover_from_storage d = elim (st.list_rooms d.storage) [
    | err e ↦ (d, err (storage e))
    | ok room_ids ↦
        let (rm, result) = recover_all d.room_manager room_ids d.storage in
        (record d { room_manager = rm }, map_err room result >>= λ _. ok (length room_ids))
  ]

module _ (cbor : Cbor) (to_string : ErrorText → Text) {S : Type 0} (st : Storage S) where
  unfoldable pub routed :
      ServerDriver S
      → ℕ
      → ℕ
      → RoomManager × Result RoomError (List RoomAction)
      → ServerDriver S × Result ServerError Actions
  routed d session_id now (rm, err e) = (record d { room_manager = rm }, err (room e))
  routed d session_id now (rm, ok room_actions) =
      let (d', actions) =
        process_room_actions cbor to_string st (record d { room_manager = rm }) room_actions
          session_id now in
      (d', ok actions)

  -- The frame goes through the room manager, and its actions are carried out.
  unfoldable pub route_frame :
      ServerDriver S → ℕ → Frame → ℕ → ServerDriver S × Result ServerError Actions
  unfolding routed
  route_frame d session_id frame now =
      routed d session_id now (process_frame st d.room_manager frame now d.storage)

  -- The last two steps of a room frame, after those actions.
  finish :
      Actions
      → Option Opcode
      → ℕ
      → Frame
      → ℕ
      → ServerDriver S × Result ServerError Actions
      → ServerDriver S × Result ServerError Actions
  finish before code session_id frame now (d, err e) = (d, err e)
  finish before code session_id frame now (d, ok first) =
      let (d', second) = subscribe_external d code session_id (Header.room_id frame.header) now in
      let (d'', result) = route_frame d' session_id frame now in
      (d'', result >>= λ last. ok (before ++ first ++ second ++ last))

  unfoldable pub handle_room_frame :
      ServerDriver S
      → ℕ
      → Frame
      → Option Opcode
      → ℕ
      → ℕ
      → ServerDriver S × Result ServerError Actions
  unfolding finish
  handle_room_frame d session_id frame code now clock =
      let room_id = Header.room_id frame.header in
      finish [] code session_id frame now (
        if is_some_commit code && not (has_room d.room_manager room_id)
        then create_room st d room_id session_id now clock
        else (d, ok []))
