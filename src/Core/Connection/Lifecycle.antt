-- ===== src/Core/Connection/Lifecycle.antt =====
-- The order of the session states, over every method of crates/lockframe-core/src/connection.rs.
use lockframe.Common.{
  ℕ, ◌≤◌, ◌≡◌, refl, inl, inr, List, [], ◌∷◌, true, is_some, Option-cases, arith,
}
use lockframe.Proto.Opcode.{Opcode}
use lockframe.Proto.Header.{opcode_enum}
use lockframe.Proto.Frame.{Frame}
use lockframe.Proto.Payload.Types.{Hello}
use lockframe.Proto.Payload.Coder.{Cbor}
use lockframe.Core.Connection.{
  Connection, ConnectionState, init, pending, authenticated, closed, ConnectionConfig, new,
  set_session_id, close, update_activity, tick, send_hello, handle_hello, dispatch, handle_frame,
}

-- How far a session has come.
abbrev pub rank : ConnectionState → ℕ
rank init = 0
rank pending = 1
rank authenticated = 2
rank closed = 3

module _ (cbor : Cbor) where
  -- The methods, with the instants and the random number that their callers pass.
  pub data Call : Type 0 where
    send_hello_at tick_at update_activity_at set_session_id_to : ℕ → Call
    handle_hello_at : Hello → ℕ → ℕ → Call
    handle_frame_at : Frame → ℕ → Call
    close_now : Call

  -- The connection after a call, whether it succeeded or not.
  unfoldable pub step : Connection → Call → Connection
  unfolding update_activity set_session_id close send_hello handle_hello tick
  step c (send_hello_at now) = (send_hello cbor c now).0
  step c (tick_at now) = (tick c now).0
  step c (update_activity_at now) = update_activity c now
  step c (set_session_id_to n) = set_session_id c n
  step c (handle_hello_at hello random now) = (handle_hello cbor c hello random now).0
  step c (handle_frame_at f now) = (handle_frame cbor c f now).0
  step c close_now = close c

  unfoldable pub run : Connection → List Call → Connection
  run c [] = c
  run c (call ∷ calls) = run (step c call) calls

  dispatch-rank :
      (c : Connection) (f : Frame) (s : ConnectionState) (o : Opcode)
      → c.state ≡ s
      → rank c.state ≤ rank (dispatch cbor c f s o).0.state
  unfolding dispatch
  dispatch-rank c f init Opcode.hello e = ground arith
  dispatch-rank c f pending Opcode.hello_reply e = ground arith
  dispatch-rank c f authenticated Opcode.ping e = ground arith
  dispatch-rank c f authenticated Opcode.pong e = ground arith
  dispatch-rank c f closed Opcode.goodbye e = ground arith
  dispatch-rank c f _ Opcode.goodbye e = ground arith
  dispatch-rank c f _ Opcode.error e = ground arith
  dispatch-rank c f state code e = ground arith

  handle_frame-rank :
      (c : Connection) (f : Frame) (now : ℕ)
      → rank c.state ≤ rank (handle_frame cbor c f now).0.state
  unfolding handle_frame
  handle_frame-rank c f now =
      ground (arith, λ (o : Opcode). dispatch-rank (update_activity c now) f c.state o refl)

  step-rank : (c : Connection) (call : Call) → rank c.state ≤ rank (step c call).state
  unfolding step
  step-rank c (send_hello_at now) = ground arith
  step-rank c (tick_at now) = ground arith
  step-rank c (update_activity_at now) = ground arith
  step-rank c (set_session_id_to n) = ground arith
  step-rank c (handle_hello_at hello random now) = ground arith
  step-rank c (handle_frame_at f now) = handle_frame-rank c f now
  step-rank c close_now = ground arith

  -- No sequence of calls takes a connection back to an earlier state: in particular a closed
  -- connection stays closed.
  pub run-rank : (c : Connection) (calls : List Call) → rank c.state ≤ rank (run c calls).state
  unfolding run
  run-rank c [] = omega arith
  run-rank c (call ∷ calls) = omega (arith, step-rank c call, run-rank (step c call) calls)

  -- An authenticated connection has a session id.
  abbrev IsIdentified : Connection → Type 0
  IsIdentified c = c.state ≡ authenticated → is_some c.session_id ≡ true

  dispatch-IsIdentified :
      (c : Connection) (f : Frame) (s : ConnectionState) (o : Opcode)
      → c.state ≡ s
      → IsIdentified c
      → IsIdentified (dispatch cbor c f s o).0
  unfolding dispatch
  dispatch-IsIdentified c f init Opcode.hello e h = ground arith
  dispatch-IsIdentified c f pending Opcode.hello_reply e h = ground arith
  dispatch-IsIdentified c f authenticated Opcode.ping e h = h
  dispatch-IsIdentified c f authenticated Opcode.pong e h = h
  dispatch-IsIdentified c f closed Opcode.goodbye e h = h
  dispatch-IsIdentified c f _ Opcode.goodbye e h = ground arith
  dispatch-IsIdentified c f _ Opcode.error e h = ground arith
  dispatch-IsIdentified c f state code e h = h

  handle_frame-IsIdentified :
      (c : Connection) (f : Frame) (now : ℕ)
      → IsIdentified c
      → IsIdentified (handle_frame cbor c f now).0
  unfolding handle_frame
  handle_frame-IsIdentified c f now h = elim (Option-cases (opcode_enum f.header)) [
    | inl e ↦ rw (e, handle_frame) h
    | inr (o, e) ↦
        rw (e, handle_frame) (dispatch-IsIdentified (update_activity c now) f c.state o refl h)
  ]

  step-IsIdentified : (c : Connection) (call : Call) → IsIdentified c → IsIdentified (step c call)
  unfolding step
  step-IsIdentified c (send_hello_at now) h = ground arith
  step-IsIdentified c (tick_at now) h = ground arith
  step-IsIdentified c (update_activity_at now) h = ground arith
  step-IsIdentified c (set_session_id_to n) h = ground arith
  step-IsIdentified c (handle_hello_at hello random now) h = ground arith
  step-IsIdentified c (handle_frame_at f now) h = handle_frame-IsIdentified c f now h
  step-IsIdentified c close_now h = ground arith

  run-IsIdentified :
      (c : Connection) (calls : List Call) → IsIdentified c → IsIdentified (run c calls)
  unfolding run
  run-IsIdentified c [] h = h
  run-IsIdentified c (call ∷ calls) h =
      run-IsIdentified (step c call) calls (step-IsIdentified c call h)

  -- From its creation on, whatever calls are made, a connection that is authenticated has a
  -- session id.
  pub run-new-identified :
      (now : ℕ) (config : ConnectionConfig) (calls : List Call)
      → (run (new now config) calls).state ≡ authenticated
      → is_some (run (new now config) calls).session_id ≡ true
  unfolding new
  run-new-identified now config calls =
      run-IsIdentified (new now config) calls (λ (e : init ≡ authenticated). cc e)
