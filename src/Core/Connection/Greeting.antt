-- ===== src/Core/Connection/Greeting.antt =====
-- What a Hello does to a connection (crates/lockframe-core/src/connection.rs).
use lockframe.Common.{ℕ, ◌≡◌, List, [], ◌∷◌, some, ok, arith}
use lockframe.Proto.Opcode.{Opcode}
use lockframe.Proto.Header.{opcode_enum}
use lockframe.Proto.Header
use lockframe.Proto.Frame.{Frame}
use lockframe.Proto.Payload.Types.{Hello}
use lockframe.Proto.Payload.Coder.{Cbor}
use lockframe.Proto.Payload.{encode, from_frame}
use lockframe.Proto.Payload
use lockframe.Proto.Payload.Coding.{into_frame-framed}
use lockframe.Core.Connection.{
  Connection, init, authenticated, send_frame, hello_reply_payload, on_hello, dispatch,
  handle_frame, update_activity,
}
use lockframe.Core.Connection.Handshake.{reply_frame}

-- A connection in the initial state with a session id accepts a Hello of version 1.
pub handle_frame-greets :
    (cbor : Cbor) (c : Connection) (f : Frame) (hello : Hello) (reply : List ℕ) (s now : ℕ)
    → c.state ≡ init
    → c.session_id ≡ some s
    → opcode_enum f.header ≡ some Opcode.hello
    → from_frame cbor f ≡ ok (Payload.hello hello)
    → hello.version ≡ 1
    → encode cbor (hello_reply_payload cbor s) ≡ ok reply
    → handle_frame cbor c f now ≡ (
      record c { client_sender_id = hello.sender_id; state = authenticated; last_activity = now },
      ok (send_frame (reply_frame cbor s reply) ∷ []),
    )
unfolding handle_frame dispatch update_activity on_hello
handle_frame-greets cbor c f hello reply s now i id code read version e =
    rw
      (
        code,
        i,
        handle_frame,
        dispatch,
        read,
        on_hello,
        version,
        id,
        into_frame-framed cbor (hello_reply_payload cbor s) (Header.new Opcode.hello_reply) reply e,
      )
      (ground arith)
