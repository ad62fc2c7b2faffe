-- ===== src/Core/Connection/Authentication/Calls.antt =====
-- Which calls authenticate a connection (crates/lockframe-core/src/connection.rs), of all its methods.
use lockframe.Common.{
  ℕ, ◌≡◌, ◌≢◌, refl, sym, ◌∙◌, true, some, Bool-cases, Option-cases, inl, inr, arith, ◌==◌, ==_iff,
}
use lockframe.Proto.Opcode.{Opcode}
use lockframe.Proto.Header.{opcode_enum}
use lockframe.Proto.Payload.Types.{Hello}
use lockframe.Proto.Payload.Coder.{Cbor}
use lockframe.Core.Connection.{
  Connection, ConnectionState, init, authenticated, is_init, tick, check_timeout, send_heartbeat,
  should_send, send_hello, handle_hello, update_activity, set_session_id, close,
}
use lockframe.Core.Connection.Lifecycle.{
  Call, send_hello_at, tick_at, update_activity_at, set_session_id_to, handle_hello_at,
  handle_frame_at, close_now, step,
}
use lockframe.Core.Connection.Authentication.{Authenticates, handle_frame-Authenticates}

initial : (s : ConnectionState) → is_init s ≡ true → s ≡ init
initial init h = refl
initial _ h = cc

module _ (cbor : Cbor) where
  -- A frame that authenticates, or a Hello that is handed over in the initial state.
  abbrev pub IsCause : Connection → Call cbor → Connection → Type 0
  IsCause c (handle_frame_at f now) after =
      (o : Opcode) × (opcode_enum f.header ≡ some o) × Authenticates cbor c f c.state o after
  IsCause c (handle_hello_at hello random now) after =
      (c.state ≡ init) × (hello.version ≡ 1) × (after.session_id ≡ some random)
  IsCause c _ after = ⊥

  send_hello_not :
      (c : Connection) (now : ℕ)
      → c.state ≢ authenticated
      → (send_hello cbor c now).0.state ≢ authenticated
  unfolding send_hello
  send_hello_not c now n h = elim (Bool-cases (is_init c.state)) [
    | inl e ↦ absurd (ground (arith, rw e at h))
    | inr e ↦ n (rw e at h)
  ]

  send_heartbeat-state :
      (c : Connection) (now : ℕ) (s : ConnectionState) → (send_heartbeat c now s).0.state ≡ c.state
  unfolding send_heartbeat
  send_heartbeat-state c now authenticated = elim (Bool-cases (should_send c now)) [
    | inl e ↦ rw (e, send_heartbeat) refl
    | inr e ↦ rw (e, send_heartbeat) refl
  ]
  send_heartbeat-state c now _ = refl

  tick_not :
      (c : Connection) (now : ℕ) → c.state ≢ authenticated → (tick c now).0.state ≢ authenticated
  unfolding tick
  tick_not c now n h = elim (Option-cases (check_timeout c now)) [
    | inr (elapsed, e) ↦ absurd (ground (arith, rw (e, tick) at h))
    | inl e ↦ n (sym (send_heartbeat-state c now c.state) ∙ (rw (e, tick) at h))
  ]

  handle_hello-IsCause :
      (c : Connection) (hello : Hello) (random now : ℕ)
      → c.state ≢ authenticated
      → (handle_hello cbor c hello random now).0.state ≡ authenticated
      → IsCause c (handle_hello_at hello random now) (handle_hello cbor c hello random now).0
  unfolding handle_hello
  handle_hello-IsCause c hello random now n h = elim (Bool-cases (is_init c.state)) [
    | inr e ↦ absurd (n (rw e at h))
    | inl e ↦ elim (Bool-cases (hello.version == 1)) [
      | inr v ↦ absurd (n (rw (e, v) at h))
      | inl v ↦ (initial c.state e, (==_iff hello.version 1).0 v, rw (e, v) refl)
    ]
  ]

  -- A call of any method that takes a connection from another state to `Authenticated` is either
  -- the handling of a frame: a `Hello` of version 1 in `Init` with a session id set, or a
  -- `HelloReply` in `Pending`, whose session id is kept; or it is `handle_hello` in `Init` on a `Hello` of
  -- version 1, which sets a session id of its own.
  pub step-IsCause :
      (c : Connection) (call : Call cbor)
      → c.state ≢ authenticated
      → (step cbor c call).state ≡ authenticated
      → IsCause c call (step cbor c call)
  unfolding step update_activity set_session_id close
  step-IsCause c (send_hello_at now) n h = send_hello_not c now n h
  step-IsCause c (tick_at now) n h = tick_not c now n h
  step-IsCause c (update_activity_at now) n h = n h
  step-IsCause c (set_session_id_to id) n h = n h
  step-IsCause c (handle_hello_at hello random now) n h =
      handle_hello-IsCause c hello random now n h
  step-IsCause c (handle_frame_at f now) n h = handle_frame-Authenticates cbor c f now n h
  step-IsCause c close_now n h = absurd (ground (arith, h))
