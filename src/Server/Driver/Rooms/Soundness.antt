-- ===== src/Server/Driver/Rooms/Soundness.antt =====
-- Creating rooms, subscribing and routing frames keep the driver sound
-- (crates/lockframe-server/src/driver.rs).
use lockframe.Common.{
  not, ◌&&◌, ℕ, ◌≡◌, refl, [], Option, none, some, Option-cases, Bool-cases, Result-cases, inl, inr,
  Result, ok, err,
}
use lockframe.Proto.Opcode.{Opcode}
use lockframe.Proto.Header.{opcode_enum}
use lockframe.Proto.Header
use lockframe.Proto.Frame.{Frame}
use lockframe.Proto.Payload.Types.{Text}
use lockframe.Proto.Payload.Coder.{Cbor}
use lockframe.Server.Storage.{Storage}
use lockframe.Server.Registry.{sessions}
use lockframe.Server.RoomManager.{RoomManager, RoomError}
use lockframe.Server.RoomManager
use lockframe.Server.Driver.Types.{ServerDriver, ServerError, ErrorText}
use lockframe.Server.Driver.Replies.{Actions}
use lockframe.Server.Driver.Rooms.{
  welcome, created, create_room, finish, recover_all, is_some_commit, recover_from_storage,
  route_frame, subscribe_external, handle_room_frame,
}
use lockframe.Server.Driver.Rooms.Effects.{route_frame-Untouched}
use lockframe.Server.Driver.Invariant.{IsSound, Untouched-IsSound, subscribed-IsSound}

untouched :
    {S : Type 0} (d d' : ServerDriver S)
    → d'.connections ≡ d.connections
    → d'.registry ≡ d.registry
    → d'.config ≡ d.config
    → IsSound d
    → IsSound d'
untouched d d' e e' e'' i =
    Untouched-IsSound d d' (record { connections = e; registry = e'; config = e'' }) i

module _ {S : Type 0} (d : ServerDriver S) (i : IsSound d) where
  pub welcome-IsSound :
      (user room : ℕ) (f : Frame) (now : ℕ) (session : Option ℕ)
      → IsSound (welcome d user room f now session).0
  unfolding welcome
  welcome-IsSound user room f now none = i
  welcome-IsSound user room f now (some s) = subscribed-IsSound d s room i

  subscribe_external-IsSound :
      (o : Option Opcode) (s room now : ℕ) → IsSound (subscribe_external d o s room now).0
  unfolding subscribe_external
  subscribe_external-IsSound (some Opcode.external_commit) s room now =
      subscribed-IsSound d s room i
  subscribe_external-IsSound (some _) s room now = i
  subscribe_external-IsSound none s room now = i

  module _ (st : Storage S) where
    created-IsSound :
        (room s now : ℕ) (p : RoomManager × S × Result RoomError (Unit {0}))
        → IsSound (created st d room s now p).0
    unfolding created
    created-IsSound room s now (rm, store, err e) =
        untouched d (record d { room_manager = rm; storage = store }) refl refl refl i
    created-IsSound room s now (rm, store, ok _) =
        subscribed-IsSound (record d { room_manager = rm; storage = store }) s room
          (untouched d (record d { room_manager = rm; storage = store }) refl refl refl i)

    create_room-IsSound : (room s now clock : ℕ) → IsSound (create_room st d room s now clock).0
    unfolding create_room
    create_room-IsSound room s now clock = elim (Option-cases (sessions d.registry s)) [
      | inl e ↦ rw (e, create_room) i
      | inr (known, e) ↦ rw (e, create_room) (created-IsSound room s now _)
    ]

    pub recover-IsSound : IsSound (recover_from_storage st d).0
    unfolding recover_from_storage
    recover-IsSound = elim (Result-cases (st.list_rooms d.storage)) [
      | inr (e, bad) ↦ rw (bad, recover_from_storage) i
      | inl (rooms, good) ↦
          rw (good, recover_from_storage)
            (untouched d
              (record d { room_manager = (recover_all st d.room_manager rooms d.storage).0 }) refl
              refl refl i)
    ]

module _ (cbor : Cbor) (to_string : ErrorText → Text) {S : Type 0} (st : Storage S) where
  pub route_frame-IsSound :
      (d : ServerDriver S) (s : ℕ) (f : Frame) (now : ℕ)
      → IsSound d
      → IsSound (route_frame cbor to_string st d s f now).0
  route_frame-IsSound d s f now i =
      Untouched-IsSound d (route_frame cbor to_string st d s f now).0
        (route_frame-Untouched cbor to_string st d s f now) i

  finish-IsSound :
      (before : Actions) (o : Option Opcode) (s : ℕ) (f : Frame) (now : ℕ)
      (p : ServerDriver S × Result ServerError Actions)
      → IsSound p.0
      → IsSound (finish cbor to_string st before o s f now p).0
  unfolding finish
  finish-IsSound before o s f now (d, err e) i = i
  finish-IsSound before o s f now (d, ok first) i =
      route_frame-IsSound (subscribe_external d o s (Header.room_id f.header) now).0 s f now
        (subscribe_external-IsSound d i o s (Header.room_id f.header) now)

  pub handle_room_frame-IsSound :
      (d : ServerDriver S) (s : ℕ) (f : Frame) (o : Option Opcode) (now clock : ℕ)
      → IsSound d
      → IsSound (handle_room_frame cbor to_string st d s f o now clock).0
  unfolding handle_room_frame
  handle_room_frame-IsSound d s f o now clock i =
      elim (Bool-cases
        (is_some_commit o && not (RoomManager.has_room d.room_manager (Header.room_id f.header)))) [
          | inl e ↦ rw e (
              finish-IsSound [] o s f now (create_room st d (Header.room_id f.header) s now clock)
                (create_room-IsSound d i st (Header.room_id f.header) s now clock))
          | inr e ↦ rw e (finish-IsSound [] o s f now (d, ok []) i)
        ]
