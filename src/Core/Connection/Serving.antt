-- ===== src/Core/Connection/Serving.antt =====
-- What the server relies on in a connection (crates/lockframe-core/src/connection.rs): its session
-- id stays, it never becomes initial again and keeps what its Hello named, and a Hello that
-- succeeds authenticates it.
use lockframe.Common.{
  ℕ, ◌≡◌, ◌≢◌, refl, ap, false, some, Option-cases, Bool-cases, Result-cases, inl, inr, arith,
  Result, ok, err,
}
use lockframe.Proto.Errors.{ProtocolError}
use lockframe.Proto.Opcode.{Opcode}
use lockframe.Proto.Header.{opcode_enum}
use lockframe.Proto.Frame.{Frame}
use lockframe.Proto.Payload.Coder.{Cbor}
use lockframe.Proto.Payload.{Payload, from_frame}
use lockframe.Core.Connection.{
  Connection, ConnectionState, init, pending, authenticated, closed, is_init, dispatch, on_hello,
  on_goodbye, with_payload, handle_frame, tick, check_timeout, send_heartbeat, update_activity,
  Actions, Outcome, protocol, should_send,
}

-- A connection after a call: the same session, no way back to the initial state, and outside of it
-- no other sender id.
pub record Continues (c c' : Connection) : Type 0 where
  pub session_id : c'.session_id ≡ c.session_id
  pub started : is_init c.state ≡ false → is_init c'.state ≡ false
  pub named : is_init c.state ≡ false → c'.client_sender_id ≡ c.client_sender_id

same : (c : Connection) → Continues c c
same c = record { session_id = refl; started = λ h. h; named = λ h. refl }

-- A change of the state alone, to a later one.
moved :
    (c : Connection) (s : ConnectionState)
    → is_init s ≡ false
    → Continues c (record c { state = s })
moved c s e = record { session_id = refl; started = λ h. e; named = λ h. refl }

pub update_activity-Continues : (c : Connection) (now : ℕ) → Continues c (update_activity c now)
unfolding update_activity
update_activity-Continues c now = record { session_id = refl; started = λ h. h; named = λ h. refl }

module _ (cbor : Cbor) where
  with_payload-Continues :
      (c : Connection) (r : Result ProtocolError Payload) (arm : Payload → Outcome)
      → ((p : Payload) → Continues c (arm p).0)
      → Continues c (with_payload cbor c r arm).0
  with_payload-Continues c (err e) arm h = same c
  with_payload-Continues c (ok p) arm h = h p

  on_hello-Continues :
      (c : Connection) (p : Payload) → init ≡ c.state → Continues c (on_hello cbor c p).0
  unfolding on_hello
  on_hello-Continues c (Payload.hello hello) first = record {
    session_id = ground arith;
    started = λ h. ground arith;
    named = λ h. ground (arith, ap is_init first, h);
  }
  on_hello-Continues c _ first = same c

  on_goodbye-Continues : (c : Connection) (p : Payload) → Continues c (on_goodbye cbor c p).0
  unfolding on_goodbye
  on_goodbye-Continues c (Payload.goodbye goodbye) = moved c closed refl
  on_goodbye-Continues c _ = same c

  dispatch-Continues :
      (c : Connection) (f : Frame) (s : ConnectionState) (o : Opcode)
      → o ≢ Opcode.hello_reply
      → s ≡ c.state
      → Continues c (dispatch cbor c f s o).0
  unfolding dispatch
  dispatch-Continues c f init Opcode.hello n is =
      with_payload-Continues c (from_frame cbor f) (on_hello cbor c)
        (λ p. on_hello-Continues c p is)
  dispatch-Continues c f pending Opcode.hello_reply n is = absurd (n refl)
  dispatch-Continues c f authenticated Opcode.ping n is = same c
  dispatch-Continues c f authenticated Opcode.pong n is = same c
  dispatch-Continues c f closed Opcode.goodbye n is = same c
  dispatch-Continues c f _ Opcode.goodbye n is =
      with_payload-Continues c (from_frame cbor f) (on_goodbye cbor c) (on_goodbye-Continues c)
  dispatch-Continues c f _ Opcode.error n is = moved c closed refl
  dispatch-Continues c f state code n is = same c

  -- A frame that is no HelloReply keeps the session id, and does not lead back to the initial state.
  pub handle_frame-Continues :
      (c : Connection) (f : Frame) (now : ℕ) (o : Opcode)
      → opcode_enum f.header ≡ some o
      → o ≢ Opcode.hello_reply
      → Continues c (handle_frame cbor c f now).0
  unfolding handle_frame
  handle_frame-Continues c f now o e h =
      let k = dispatch-Continues (update_activity c now) f c.state o h refl in
      rw (e, handle_frame)
        (record { session_id = k.session_id; started = k.started; named = k.named })

  on_hello_starts :
      (c : Connection) (p : Payload) (actions : Actions)
      → (on_hello cbor c p).1 ≡ ok actions
      → is_init (on_hello cbor c p).0.state ≡ false
  unfolding on_hello
  on_hello_starts c (Payload.hello hello) actions h = ground arith
  on_hello_starts c _ actions h = cc

  hello_dispatched :
      (c : Connection) (f : Frame) (s : ConnectionState) (actions : Actions)
      → (dispatch cbor c f s Opcode.hello).1 ≡ ok actions
      → is_init (dispatch cbor c f s Opcode.hello).0.state ≡ false
  unfolding dispatch
  hello_dispatched c f init actions h = elim (Result-cases (from_frame cbor f)) [
    | inl (p, e) ↦ rw (e, dispatch) (on_hello_starts c p actions (rw (e, dispatch) at h))
    | inr (e, bad) ↦ cc (let k : err (protocol e) ≡ ok actions = rw (bad, dispatch) at h in k)
  ]
  hello_dispatched c f _ actions h = cc

  -- A connection that answers a Hello without an error is no longer in its initial state.
  pub hello_starts :
      (c : Connection) (f : Frame) (now : ℕ) (actions : Actions)
      → opcode_enum f.header ≡ some Opcode.hello
      → (handle_frame cbor c f now).1 ≡ ok actions
      → is_init (handle_frame cbor c f now).0.state ≡ false
  unfolding handle_frame
  hello_starts c f now actions e h =
      rw (e, handle_frame)
        (hello_dispatched (update_activity c now) f c.state actions (rw (e, handle_frame) at h))

send_heartbeat-Continues :
    (c : Connection) (now : ℕ) (s : ConnectionState) → Continues c (send_heartbeat c now s).0
unfolding send_heartbeat
send_heartbeat-Continues c now authenticated = elim (Bool-cases (should_send c now)) [
  | inl e ↦
      rw (e, send_heartbeat) (record { session_id = refl; started = λ h. h; named = λ h. refl })
  | inr e ↦ rw (e, send_heartbeat) (same c)
]
send_heartbeat-Continues c now _ = same c

pub tick-Continues : (c : Connection) (now : ℕ) → Continues c (tick c now).0
unfolding tick
tick-Continues c now = elim (Option-cases (check_timeout c now)) [
  | inr (elapsed, e) ↦ rw (e, tick) (moved c closed refl)
  | inl e ↦ rw (e, tick) (send_heartbeat-Continues c now c.state)
]
