-- ===== src/Server/Driver/Sessions/Soundness.antt =====
-- Opening, closing and ticking connections, and session frames, keep the driver sound
-- (crates/lockframe-server/src/driver.rs).
use lockframe.Common.{
  ℕ, ◌≡◌, ◌≢◌, refl, ap, ◌∙◌, List, false, Option, none, some, Bool-cases, inl, inr, arith, leb,
  length, lookup, insert, length-insert, lookup-insert, ==_self, remove, contains_key, Result, ok,
  err,
}
use lockframe.Proto.Opcode.{Opcode}
use lockframe.Proto.Header.{opcode_enum}
use lockframe.Proto.Frame.{Frame}
use lockframe.Proto.Payload.Types.{Text}
use lockframe.Proto.Payload.Coder.{Cbor}
use lockframe.Core.Connection.{
  Connection, ConnectionConfig, ConnectionAction, ConnectionError, set_session_id, is_init,
  handle_frame, update_activity,
}
use lockframe.Core.Connection
use lockframe.Core.Connection.Serving.{
  Continues, handle_frame-Continues, hello_starts, update_activity-Continues,
}
use lockframe.Server.Registry.{
  ConnectionRegistry, SessionInfo, new_info, register_session, unregister_session,
  update_session_info, subscribe, sessions, session_id_for_user,
}
use lockframe.Server.Registry
use lockframe.Server.Registry.Calls.{step, step-IsConsistent, register, unregister, update}
use lockframe.Server.Driver.Types.{ServerDriver}
use lockframe.Server.Driver.Sessions.{
  handle_connection_accepted, closed_with, handle_connection_closed, handle_tick, identify,
  identify_as, or_else, session_frame_done, touch,
}
use lockframe.Server.Driver.Logs.{ordering}
use lockframe.Server.Driver.Matching.{
  continue-IsMatched, accept-IsMatched, close-IsMatched, update-IsMatched, tick-IsMatched,
  length-insert_known, length-remove-le, length-tick_all,
}
use lockframe.Server.Driver.Invariant.{IsSound}

module _ {S : Type 0} (d : ServerDriver S) (i : IsSound d) where
  -- The connection of a session goes on.
  continue-IsSound :
      (s : ℕ) (c c' : Connection)
      → lookup s d.connections ≡ some c
      → Continues c c'
      → IsSound (record d { connections = insert s c' d.connections })
  continue-IsSound s c c' here k = record {
    consistent = i.consistent;
    matched = continue-IsMatched d.connections d.registry.sessions i.matched s c c' here k;
    bounded = omega (arith, i.bounded, length-insert_known s c' c d.connections here);
  }

  pub touch-IsSound :
      (s : ℕ) (c : Connection) (now : ℕ)
      → lookup s d.connections ≡ some c
      → IsSound (touch d s c now)
  touch-IsSound s c now here =
      continue-IsSound s c (update_activity c now) here (update_activity-Continues c now)

  pub accepted-IsSound :
      (s now : ℕ)
      → contains_key s d.connections ≡ false
      → IsSound (handle_connection_accepted d s now).0
  unfolding handle_connection_accepted
  accepted-IsSound s now fresh =
      elim (Bool-cases (leb d.config.max_connections (length d.connections))) [
        | inl full ↦ rw full i
        | inr free ↦ rw free (record {
          consistent =
              unfold step in step-IsConsistent d.registry (register s new_info) i.consistent;
          matched =
              accept-IsMatched d.connections d.registry.sessions i.matched d.registry s
                (set_session_id (Connection.new now d.config.connection) s) refl fresh
                (unfold set_session_id in refl);
          bounded = ground (
            arith,
            i.bounded,
            free,
            length-insert s (set_session_id (Connection.new now d.config.connection) s)
                d.connections,
          );
        })
      ]

  closed-IsSound :
      (s : ℕ)
      → IsSound (record d {
        connections = remove s d.connections;
        registry = (unregister_session d.registry s).0;
      })
  closed-IsSound s = record {
    consistent = unfold step in step-IsConsistent d.registry (unregister s) i.consistent;
    matched = close-IsMatched d.connections d.registry.sessions i.matched d.registry s refl;
    bounded = omega (arith, i.bounded, length-remove-le s d.connections);
  }

  closed_with-IsSound :
      (s : ℕ) (reason : Text) (now : ℕ) (p : ConnectionRegistry × Option (SessionInfo × List ℕ))
      → IsSound (record d { connections = remove s d.connections; registry = p.0 })
      → IsSound (closed_with d s reason now p).0
  unfolding closed_with
  closed_with-IsSound s reason now (g, none) h = h
  closed_with-IsSound s reason now (g, some (old, rooms)) h = h

  pub handle_connection_closed-IsSound :
      (s : ℕ) (reason : Text) (now : ℕ) → IsSound (handle_connection_closed d s reason now).0
  unfolding handle_connection_closed
  handle_connection_closed-IsSound s reason now =
      closed_with-IsSound s reason now (unregister_session d.registry s) (closed-IsSound s)

  pub handle_tick-IsSound : (now : ℕ) → IsSound (handle_tick d now).0
  unfolding handle_tick
  handle_tick-IsSound now = record {
    consistent = i.consistent;
    matched = tick-IsMatched d.connections d.registry.sessions now i.matched;
    bounded = omega (arith, i.bounded, length-tick_all d.connections now);
  }

  identify_as-IsSound :
      (s : ℕ) (c : Connection) (user : Option ℕ)
      → lookup s d.connections ≡ some c
      → is_init c.state ≡ false
      → or_else c.client_sender_id c.session_id ≡ user
      → IsSound (record d { registry = identify_as user s d.registry })
  unfolding identify_as Registry.authenticated
  identify_as-IsSound s c none here started names = i
  identify_as-IsSound s c (some user) here started names = record {
    consistent =
        unfold step in
        step-IsConsistent d.registry (update s (Registry.authenticated user)) i.consistent;
    matched =
        update-IsMatched d.connections d.registry.sessions i.matched d.registry s c
          (Registry.authenticated user) refl here started names;
    bounded = i.bounded;
  }

  identify-IsSound :
      (s : ℕ) (c : Connection) (o : Opcode)
      → lookup s d.connections ≡ some c
      → (o ≡ Opcode.hello → is_init c.state ≡ false)
      → IsSound (record d { registry = identify o s c d.registry })
  unfolding identify
  identify-IsSound s c Opcode.hello here started =
      identify_as-IsSound s c _ here (started refl) refl
  identify-IsSound s c Opcode.hello_reply here started = i
  identify-IsSound s c _ here started = i

module _ {S : Type 0} (d : ServerDriver S) (i : IsSound d) where
  session_frame_done-IsSound :
      (s : ℕ) (c : Connection) (o : Opcode)
      (p : Connection × Result ConnectionError (List ConnectionAction))
      → lookup s d.connections ≡ some c
      → Continues c p.0
      → ((actions : List ConnectionAction)
          → o ≡ Opcode.hello
          → p.1 ≡ ok actions
          → is_init p.0.state ≡ false)
      → IsSound (session_frame_done d s o p).0
  unfolding session_frame_done
  session_frame_done-IsSound s c o (c', err e) here k h = continue-IsSound d i s c c' here k
  session_frame_done-IsSound s c o (c', ok actions) here k h =
      let d' = record d { connections = insert s c' d.connections } in
      identify-IsSound d' (continue-IsSound d i s c c' here k) s c' o
        (lookup-insert s s c' d.connections ∙ rw (==_self s)) (λ e. h actions e refl)

  pub session_frame-IsSound :
      (cbor : Cbor) (s : ℕ) (c : Connection) (f : Frame) (now : ℕ) (o : Opcode)
      → lookup s d.connections ≡ some c
      → opcode_enum f.header ≡ some o
      → o ≢ Opcode.hello_reply
      → IsSound (session_frame_done d s o (handle_frame cbor c f now)).0
  session_frame-IsSound cbor s c f now o here e n =
      session_frame_done-IsSound s c o (handle_frame cbor c f now) here
        (handle_frame-Continues cbor c f now o e n)
        (λ actions hello done. hello_starts cbor c f now actions (e ∙ ap some hello) done)

module _ {S : Type 0} (d : ServerDriver S) where
  ordering-closed_with :
      (s : ℕ) (reason : Text) (now : ℕ) (p : ConnectionRegistry × Option (SessionInfo × List ℕ))
      → ordering (closed_with d s reason now p).0 ≡ ordering d
  unfolding closed_with
  ordering-closed_with s reason now (g, none) = refl
  ordering-closed_with s reason now (g, some (old, rooms)) = refl

  pub ordering-closed :
      (s : ℕ) (reason : Text) (now : ℕ)
      → ordering (handle_connection_closed d s reason now).0 ≡ ordering d
  unfolding handle_connection_closed
  ordering-closed s reason now = ordering-closed_with s reason now (unregister_session d.registry s)
