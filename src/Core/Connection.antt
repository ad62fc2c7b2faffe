-- ===== src/Core/Connection.antt =====
-- crates/lockframe-core/src/connection.rs and error.rs: the session state machine. Instants and
-- durations are numbers, and `Instant - Instant` saturates at 0 as the standard library's does.
-- The texts of reasons and errors stand as data: one constructor for each `format!`.
pub mod Lifecycle
pub mod Authentication
pub mod Heartbeat
pub mod Handshake
pub mod Greeting
pub mod Serving
use lockframe.Common.{
  ℕ, ◌-◌, ◌*◌, List, [], ◌∷◌, Bool, true, false, not, Option, none, some, ltb, leb, ◌==◌,
  if◌then◌else◌, Result, ok, err, ◌>>=◌, map_err,
}
use lockframe.Proto.Errors.{ProtocolError}
use lockframe.Proto.Opcode.{Opcode, to_u16}
use lockframe.Proto.Header.{opcode_enum}
use lockframe.Proto.Header
use lockframe.Proto.Frame.{Frame}
use lockframe.Proto.Frame
use lockframe.Proto.Payload.Types.{Text, Hello, HelloReply, Goodbye}
use lockframe.Proto.Payload.Coder.{Cbor}
use lockframe.Proto.Payload.{Payload, into_frame, from_frame}
use lockframe.Proto.Payload

pub data ConnectionState : Type 0 where
  init pending authenticated closed : ConnectionState

pub data CloseReason : Type 0 where
  handshake_timeout_after idle_timeout_after : ℕ → CloseReason
  timeout : CloseReason
  peer_goodbye : Text → CloseReason
  peer_error : CloseReason

pub data ConnectionAction : Type 0 where
  send_frame : Frame → ConnectionAction
  close_with : CloseReason → ConnectionAction

pub data Operation : Type 0 where
  send_hello_call handle_hello_call : Operation

-- `Protocol(String)`: the text of a `ProtocolError`, or the message about the session id.
pub data ConnectionError : Type 0 where
  invalid_state : ConnectionState → Operation → ConnectionError
  unexpected_frame : ConnectionState → ℕ → ConnectionError
  handshake_timeout idle_timeout : ℕ → ConnectionError
  unsupported_version : ℕ → ConnectionError
  invalid_payload : Opcode → ConnectionError
  protocol : ProtocolError → ConnectionError
  session_id_not_set : ConnectionError
  transport : ConnectionError

pub record ConnectionConfig : Type 0 where
  pub handshake_timeout : ℕ
  pub idle_timeout : ℕ
  pub heartbeat_interval : ℕ

-- The defaults, in seconds.
abbrev pub default_config : ConnectionConfig
default_config = record { handshake_timeout = 30; idle_timeout = 60; heartbeat_interval = 20 }

pub record Connection : Type 0 where
  pub state : ConnectionState
  pub config : ConnectionConfig
  pub last_activity : ℕ
  pub last_heartbeat : Option ℕ
  pub session_id : Option ℕ
  pub client_sender_id : Option ℕ

abbrev pub Actions : Type 0
Actions = List ConnectionAction

-- A method with `&mut self`: the connection after the call, and the result. The changes made
-- before an error stay.
abbrev pub Outcome : Type 0
Outcome = Connection × Result ConnectionError Actions

unfoldable pub new : ℕ → ConnectionConfig → Connection
new now config = record {
  state = init;
  config = config;
  last_activity = now;
  last_heartbeat = none;
  session_id = none;
  client_sender_id = none;
}

unfoldable pub set_session_id : Connection → ℕ → Connection
set_session_id c session_id = record c { session_id = some session_id }

unfoldable pub close : Connection → Connection
close c = record c { state = closed }

unfoldable pub update_activity : Connection → ℕ → Connection
update_activity c now = record c { last_activity = now }

timeout_in : ConnectionConfig → ConnectionState → Option ℕ
timeout_in config pending = some config.handshake_timeout
timeout_in config authenticated = some config.idle_timeout
timeout_in config _ = none

unfoldable pub check_timeout : Connection → ℕ → Option ℕ
unfolding timeout_in
check_timeout c now =
    let elapsed = now - c.last_activity in
    elim (timeout_in c.config c.state) [
      | none ↦ none
      | some limit ↦ if ltb limit elapsed then some elapsed else none
    ]

timeout_reason : ConnectionState → ℕ → CloseReason
timeout_reason pending elapsed = handshake_timeout_after elapsed
timeout_reason authenticated elapsed = idle_timeout_after elapsed
timeout_reason _ elapsed = timeout

should_send : Connection → ℕ → Bool
should_send c now = elim c.last_heartbeat [
  | none ↦ true
  | some last ↦ leb c.config.heartbeat_interval (now - last)
]

abbrev pub ping_frame : Frame
ping_frame = Frame.new (Header.new Opcode.ping) []

-- The second half of `tick`, in each state.
send_heartbeat : Connection → ℕ → ConnectionState → Connection × Actions
unfolding should_send
send_heartbeat c now authenticated =
    if should_send c now
    then (record c { last_heartbeat = some now; last_activity = now }, send_frame ping_frame ∷ [])
    else (c, [])
send_heartbeat c now _ = (c, [])

unfoldable pub tick : Connection → ℕ → Connection × Actions
unfolding check_timeout timeout_reason send_heartbeat close
tick c now = elim (check_timeout c now) [
  | some elapsed ↦ (close c, close_with (timeout_reason c.state elapsed) ∷ [])
  | none ↦ send_heartbeat c now c.state
]

abbrev pub is_init : ConnectionState → Bool
is_init init = true
is_init _ = false

module _ (cbor : Cbor) where
  -- `payload.into_frame(FrameHeader::new(opcode))?`, sent.
  abbrev reply_with : Payload → Opcode → Result ConnectionError Actions
  reply_with p code = do
    f ← map_err protocol (into_frame cbor p (Header.new code))
    ok (send_frame f ∷ [])

  abbrev pub hello_payload : Payload
  hello_payload =
      Payload.hello (record { version = 1; capabilities = []; sender_id = none; auth_token = none })

  abbrev pub hello_reply_payload : ℕ → Payload
  hello_reply_payload session_id =
      Payload.hello_reply (record { session_id = session_id; capabilities = []; challenge = none })

  unfoldable pub send_hello : Connection → ℕ → Outcome
  send_hello c now =
      if not (is_init c.state) then (c, err (invalid_state c.state send_hello_call)) else (
        record c { state = pending; last_activity = now },
        reply_with hello_payload Opcode.hello,
      )

  -- `random` is the number that `env.random_u64()` returns.
  unfoldable pub handle_hello : Connection → Hello → ℕ → ℕ → Outcome
  handle_hello c hello random now =
      if not (is_init c.state)
      then (c, err (invalid_state c.state handle_hello_call))
      else if not (hello.version == 1)
      then (c, err (unsupported_version hello.version))
      else (
        record c { session_id = some random; state = authenticated; last_activity = now },
        reply_with (hello_reply_payload random) Opcode.hello_reply,
      )

  -- The arms of `handle_frame`, each on the decoded payload.
  on_hello : Connection → Payload → Outcome
  on_hello c (Payload.hello hello) =
      if not (hello.version == 1)
      then (c, err (unsupported_version hello.version))
      else elim c.session_id [
        | none ↦ (c, err session_id_not_set)
        | some session_id ↦ (
          record c { client_sender_id = hello.sender_id; state = authenticated },
          reply_with (hello_reply_payload session_id) Opcode.hello_reply,
        )
      ]
  on_hello c _ = (c, err (invalid_payload Opcode.hello))

  on_hello_reply : Connection → Payload → Outcome
  on_hello_reply c (Payload.hello_reply reply) =
      (record c { state = authenticated; session_id = some reply.session_id }, ok [])
  on_hello_reply c _ = (c, err (invalid_payload Opcode.hello_reply))

  abbrev ack : Payload
  ack = Payload.goodbye (record { reason = b'a' ∷ b'c' ∷ b'k' ∷ [] })

  on_goodbye : Connection → Payload → Outcome
  unfolding close
  on_goodbye c (Payload.goodbye goodbye) = (
    close c,
    map_err protocol (into_frame cbor ack (Header.new Opcode.goodbye)) >>= λ f.
        ok (send_frame f ∷ close_with (peer_goodbye goodbye.reason) ∷ []),
  )
  on_goodbye c _ = (c, err (invalid_payload Opcode.goodbye))

  -- `let payload = Payload::from_frame(frame)?;`, and the arm.
  abbrev with_payload : Connection → Result ProtocolError Payload → (Payload → Outcome) → Outcome
  with_payload c (err e) arm = (c, err (protocol e))
  with_payload c (ok p) arm = arm p

  -- The `match` on the state and the opcode.
  dispatch : Connection → Frame → ConnectionState → Opcode → Outcome
  unfolding on_hello on_hello_reply on_goodbye close
  dispatch c f init Opcode.hello = with_payload c (from_frame cbor f) (on_hello c)
  dispatch c f pending Opcode.hello_reply = with_payload c (from_frame cbor f) (on_hello_reply c)
  dispatch c f authenticated Opcode.ping =
      (c, ok (send_frame (Frame.new (Header.new Opcode.pong) []) ∷ []))
  dispatch c f authenticated Opcode.pong = (c, ok [])
  dispatch c f closed Opcode.goodbye = (c, err (unexpected_frame closed (to_u16 Opcode.goodbye)))
  dispatch c f _ Opcode.goodbye = with_payload c (from_frame cbor f) (on_goodbye c)
  dispatch c f _ Opcode.error = (close c, ok (close_with peer_error ∷ []))
  dispatch c f state code = (c, err (unexpected_frame state (to_u16 code)))

  unfoldable pub handle_frame : Connection → Frame → ℕ → Outcome
  unfolding dispatch update_activity
  handle_frame c f now =
      let c' = update_activity c now in
      elim (opcode_enum f.header) [
        | none ↦ (c', err (unexpected_frame c'.state (Header.opcode f.header)))
        | some code ↦ dispatch c' f c'.state code
      ]
