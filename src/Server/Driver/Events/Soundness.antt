-- ===== src/Server/Driver/Events/Soundness.antt =====
-- No event makes the driver unsound (crates/lockframe-server/src/driver.rs).
use lockframe.Common.{
  ℕ, ◌≡◌, refl, subst, false, Option, none, some, Option-cases, inl, inr, arith, lookup,
  contains_key, Result,
}
use lockframe.Proto.Opcode.{Opcode}
use lockframe.Proto.Header.{opcode_enum}
use lockframe.Proto.Header
use lockframe.Proto.Frame.{Frame}
use lockframe.Proto.Payload.Types.{Text}
use lockframe.Proto.Payload.Coder.{Cbor}
use lockframe.Core.Connection.{Connection}
use lockframe.Server.Storage.{Storage}
use lockframe.Server.Registry.{
  ConnectionRegistry, SessionInfo, new_info, register_session, unregister_session,
  update_session_info, subscribe, sessions, session_id_for_user,
}
use lockframe.Server.Registry
use lockframe.Server.Registry.Calls.{new-IsConsistent}
use lockframe.Server.Driver.Types.{
  ServerConfig, ServerDriver, ServerEvent, ServerError, ErrorText, connection_accepted,
  frame_received, connection_closed, timer_tick,
}
use lockframe.Server.Driver.Replies.{Actions}
use lockframe.Server.Driver.Requests.{
  handle_sync, handle_key_package_fetch, handle_group_info_publish,
}
use lockframe.Server.Driver.Requests.Effects.{
  handle_sync-MayLeave, handle_key_package_publish-MayLeave, handle_key_package_fetch-Untouched,
  handle_group_info_publish-Untouched,
}
use lockframe.Server.Driver.Sessions.{new, touch}
use lockframe.Server.Driver.Rooms.{recover_from_storage}
use lockframe.Server.Driver.Events.{
  Outcome, maybe_answered, handle_opcode, handle_frame_received, process_event,
}
use lockframe.Server.Driver.Untouched.{MayLeave}
use lockframe.Server.Driver.Invariant.{IsSound, Untouched-IsSound}
use lockframe.Server.Driver.Sessions.Soundness.{
  touch-IsSound, accepted-IsSound, handle_connection_closed-IsSound, handle_tick-IsSound,
  session_frame-IsSound,
}
use lockframe.Server.Driver.Rooms.Soundness.{
  welcome-IsSound, recover-IsSound, route_frame-IsSound, handle_room_frame-IsSound,
}

-- The driver that an event leaves, unless it panics.
abbrev pub After : {S : Type 0} → (ServerDriver S → Type 0) → Outcome S → Type 0
After P none = Unit {0}
After P (some (d, result)) = P d

-- The runtime gives a new connection an id that is not in use.
abbrev pub IsFresh : {S : Type 0} → ServerDriver S → ServerEvent → Type 0
IsFresh d (connection_accepted s) = contains_key s d.connections ≡ false
IsFresh d _ = Unit {0}

module _ (cbor : Cbor) (to_string : ErrorText → Text) {S : Type 0} (st : Storage S) where
  maybe_answered-IsSound :
      (d : ServerDriver S) (o : Option (ServerDriver S × Actions))
      → MayLeave d o
      → IsSound d
      → After IsSound (maybe_answered cbor to_string st o)
  maybe_answered-IsSound d none u i = tt
  maybe_answered-IsSound d (some (d', actions)) u i = Untouched-IsSound d d' u i

  handle_opcode-IsSound :
      (d : ServerDriver S) (s : ℕ) (c : Connection) (f : Frame) (now clock : ℕ) (o : Option Opcode)
      → lookup s d.connections ≡ some c
      → opcode_enum f.header ≡ o
      → IsSound d
      → After IsSound (handle_opcode cbor to_string st d s c f now clock o)
  unfolding handle_opcode
  handle_opcode-IsSound d s c f now clock (some Opcode.hello) here e i =
      session_frame-IsSound d i cbor s c f now Opcode.hello here e (λ h. cc h)
  handle_opcode-IsSound d s c f now clock (some Opcode.ping) here e i =
      session_frame-IsSound d i cbor s c f now Opcode.ping here e (λ h. cc h)
  handle_opcode-IsSound d s c f now clock (some Opcode.pong) here e i =
      session_frame-IsSound d i cbor s c f now Opcode.pong here e (λ h. cc h)
  handle_opcode-IsSound d s c f now clock (some Opcode.goodbye) here e i =
      session_frame-IsSound d i cbor s c f now Opcode.goodbye here e (λ h. cc h)
  handle_opcode-IsSound d s c f now clock (some Opcode.sync_request) here e i =
      maybe_answered-IsSound d (handle_sync cbor to_string st d s f now)
        (handle_sync-MayLeave cbor to_string st d s f now) i
  handle_opcode-IsSound d s c f now clock (some Opcode.key_package_publish) here e i =
      maybe_answered-IsSound (touch d s c now) _
        (handle_key_package_publish-MayLeave cbor to_string (touch d s c now) s f now)
        (touch-IsSound d i s c now here)
  handle_opcode-IsSound d s c f now clock (some Opcode.key_package_fetch) here e i =
      Untouched-IsSound (touch d s c now)
        (handle_key_package_fetch cbor to_string (touch d s c now) s f now).0
        (handle_key_package_fetch-Untouched cbor to_string (touch d s c now) s f now)
        (touch-IsSound d i s c now here)
  handle_opcode-IsSound d s c f now clock (some Opcode.group_info) here e i =
      Untouched-IsSound (touch d s c now)
        (handle_group_info_publish cbor to_string st (touch d s c now) s f now).0
        (handle_group_info_publish-Untouched cbor to_string st (touch d s c now) s f now)
        (touch-IsSound d i s c now here)
  handle_opcode-IsSound d s c f now clock (some Opcode.group_info_request) here e i =
      touch-IsSound d i s c now here
  handle_opcode-IsSound d s c f now clock (some Opcode.welcome) here e i =
      welcome-IsSound (touch d s c now) (touch-IsSound d i s c now here)
        (Header.recipient_id f.header) (Header.room_id f.header) f now _
  handle_opcode-IsSound d s c f now clock (some Opcode.app_message) here e i =
      route_frame-IsSound cbor to_string st (touch d s c now) s f now
        (touch-IsSound d i s c now here)
  handle_opcode-IsSound d s c f now clock (some o) here e i =
      handle_room_frame-IsSound cbor to_string st (touch d s c now) s f (some o) now clock
        (touch-IsSound d i s c now here)
  handle_opcode-IsSound d s c f now clock none here e i =
      handle_room_frame-IsSound cbor to_string st (touch d s c now) s f none now clock
        (touch-IsSound d i s c now here)

  handle_frame_received-IsSound :
      (d : ServerDriver S) (s : ℕ) (f : Frame) (now clock : ℕ)
      → IsSound d
      → After IsSound (handle_frame_received cbor to_string st d s f now clock)
  unfolding handle_frame_received
  handle_frame_received-IsSound d s f now clock i = elim (Option-cases (lookup s d.connections)) [
    | inl e ↦ rw (e, handle_frame_received) i
    | inr (c, e) ↦
        rw (e, handle_frame_received)
          (handle_opcode-IsSound d s c f now clock (opcode_enum f.header) e refl i)
  ]

  process_event-IsSound :
      (d : ServerDriver S) (event : ServerEvent) (now clock : ℕ)
      → IsFresh d event
      → IsSound d
      → After IsSound (process_event cbor to_string st d event now clock)
  unfolding process_event
  process_event-IsSound d (connection_accepted s) now clock fresh i =
      accepted-IsSound d i s now fresh
  process_event-IsSound d (frame_received s f) now clock fresh i =
      handle_frame_received-IsSound d s f now clock i
  process_event-IsSound d (connection_closed s reason) now clock fresh i =
      handle_connection_closed-IsSound d i s reason now
  process_event-IsSound d timer_tick now clock fresh i = handle_tick-IsSound d i now

  -- The states of a server: a new one, one recovered from its store, and those after events.
  pub data Reachable (config : ServerConfig) : ServerDriver S → Type 0 where
    started : (s : S) → Reachable config (new s config)
    recovered :
        {d : ServerDriver S} → Reachable config d → Reachable config (recover_from_storage st d).0
    served :
        {d d' : ServerDriver S} (r : Reachable config d) (event : ServerEvent) (now clock : ℕ)
        (result : Result ServerError Actions)
        → IsFresh d event
        → process_event cbor to_string st d event now clock ≡ some (d', result)
        → Reachable config d'

  new-IsSound : (s : S) (config : ServerConfig) → IsSound (new s config)
  unfolding new Registry.new lookup
  new-IsSound s config = record {
    consistent = new-IsConsistent;
    matched = record {
      connected = λ k. refl;
      identified = λ k c e. ground (arith, e);
      greeted = λ k u c user e. ground (arith, e);
      named = λ k u c user e. ground (arith, e);
    };
    bounded = omega arith;
  }

  -- Assumed is that a connection is accepted only under an id that no connection has. Then in every
  -- state that a server reaches from a new one, by recovering its rooms and by events, the registry
  -- is consistent; its sessions are those of the connections; a session with a user has a connection
  -- that has left the initial state, and the user is the sender id that this connection keeps from
  -- its Hello, or the session's id if it keeps none; and there are no more connections than the
  -- configuration allows.
  pub reachable-IsSound :
      (config : ServerConfig) {d : ServerDriver S} → Reachable config d → IsSound d
  reachable-IsSound config (started s) = new-IsSound s config
  reachable-IsSound config (recovered {d = d} r) = recover-IsSound d (reachable-IsSound config r) st
  reachable-IsSound config (served {d = d} r event now clock result fresh e) =
      subst (After IsSound) e
        (process_event-IsSound d event now clock fresh (reachable-IsSound config r))
