-- ===== src/Core/Connection/Handshake.antt =====
-- The handshake between two connections (crates/lockframe-core/src/connection.rs).
use lockframe.Common.{ℕ, ◌≤◌, ◌≡◌, refl, ◌∙◌, List, [], ◌∷◌, none, some, ok, length, arith}
use lockframe.Proto.Opcode.{Opcode}
use lockframe.Proto.Header.{max_payload_size, opcode_enum}
use lockframe.Proto.Header
use lockframe.Proto.Frame.{Frame}
use lockframe.Proto.Payload.Coder.{Cbor, IsLossless}
use lockframe.Proto.Payload.{Payload, encode}
use lockframe.Proto.Payload
use lockframe.Proto.Payload.Coding.{
  framed, opcode_enum-framed, into_frame-framed, from_frame-framed,
}
use lockframe.Core.Connection.{
  Connection, init, pending, authenticated, send_frame, hello_payload, hello_reply_payload,
  send_hello, on_hello, on_hello_reply, dispatch, handle_frame, update_activity,
}

module _ (cbor : Cbor) where
  abbrev pub hello_frame : List ℕ → Frame
  hello_frame bytes = framed (hello_payload cbor) (Header.new Opcode.hello) bytes

  abbrev pub reply_frame : ℕ → List ℕ → Frame
  reply_frame session_id bytes =
      framed (hello_reply_payload cbor session_id) (Header.new Opcode.hello_reply) bytes

  send_hello_sends :
      (c : Connection) (now : ℕ) (bytes : List ℕ)
      → c.state ≡ init
      → encode cbor (hello_payload cbor) ≡ ok bytes
      → send_hello cbor c now ≡ (
        record c { state = pending; last_activity = now },
        ok (send_frame (hello_frame bytes) ∷ []),
      )
  unfolding send_hello
  send_hello_sends c now bytes i e =
      rw (i, into_frame-framed cbor (hello_payload cbor) (Header.new Opcode.hello) bytes e)

  handle_frame-dispatch :
      (c : Connection) (f : Frame) (now : ℕ) (o : Opcode)
      → opcode_enum f.header ≡ some o
      → handle_frame cbor c f now ≡ dispatch cbor (update_activity c now) f c.state o
  unfolding handle_frame
  handle_frame-dispatch c f now o e = rw (e, handle_frame)

  module _ (lossless : IsLossless cbor) where
    answers_hello :
        (s : Connection) (now session_id : ℕ) (hello reply : List ℕ)
        → s.state ≡ init
        → s.session_id ≡ some session_id
        → encode cbor (hello_payload cbor) ≡ ok hello
        → length hello ≤ max_payload_size
        → encode cbor (hello_reply_payload cbor session_id) ≡ ok reply
        → handle_frame cbor s (hello_frame hello) now ≡ (
          record s { client_sender_id = none; state = authenticated; last_activity = now },
          ok (send_frame (reply_frame session_id reply) ∷ []),
        )
    unfolding dispatch update_activity Payload.opcode
    answers_hello s now session_id hello reply i id e fits e' =
        handle_frame-dispatch s (hello_frame hello) now Opcode.hello
          (opcode_enum-framed (hello_payload cbor) (Header.new Opcode.hello) hello)
        ∙ rw
            (
              i,
              dispatch,
              from_frame-framed cbor lossless (hello_payload cbor) (Header.new Opcode.hello) hello e
                  fits,
              on_hello,
              id,
              into_frame-framed cbor (hello_reply_payload cbor session_id)
                  (Header.new Opcode.hello_reply) reply e',
            )
            (ground arith)

    accepts_reply :
        (c : Connection) (now session_id : ℕ) (reply : List ℕ)
        → c.state ≡ pending
        → encode cbor (hello_reply_payload cbor session_id) ≡ ok reply
        → length reply ≤ max_payload_size
        → handle_frame cbor c (reply_frame session_id reply) now ≡ (
          record c { state = authenticated; session_id = some session_id; last_activity = now },
          ok [],
        )
    unfolding dispatch update_activity Payload.opcode
    accepts_reply c now session_id reply p e fits =
        handle_frame-dispatch c (reply_frame session_id reply) now Opcode.hello_reply (
          opcode_enum-framed (hello_reply_payload cbor session_id) (Header.new Opcode.hello_reply)
            reply)
        ∙ rw (
          p,
          dispatch,
          from_frame-framed cbor lossless (hello_reply_payload cbor session_id)
              (Header.new Opcode.hello_reply) reply e fits,
          on_hello_reply,
        )

    -- A new client and a server with its session id set complete the handshake: the client's
    -- `Hello` makes the server send one frame, that frame makes the client send none, and then
    -- both are authenticated with the server's session id. The two payloads are assumed to
    -- encode within the size limit.
    pub handshake_agrees :
        (client server : Connection) (t0 t1 t2 session_id : ℕ) (hello reply : List ℕ)
        → client.state ≡ init
        → server.state ≡ init
        → server.session_id ≡ some session_id
        → encode cbor (hello_payload cbor) ≡ ok hello
        → length hello ≤ max_payload_size
        → encode cbor (hello_reply_payload cbor session_id) ≡ ok reply
        → length reply ≤ max_payload_size
        → let (client', sent) = send_hello cbor client t0 in
          let (server', answer) = handle_frame cbor server (hello_frame hello) t1 in
          let (client'', last) = handle_frame cbor client' (reply_frame session_id reply) t2 in
          (sent ≡ ok (send_frame (hello_frame hello) ∷ []))
          × (answer ≡ ok (send_frame (reply_frame session_id reply) ∷ []))
          × (last ≡ ok [])
          × (server'.state ≡ authenticated)
          × (client''.state ≡ authenticated)
          × (server'.session_id ≡ some session_id)
          × (client''.session_id ≡ some session_id)
    handshake_agrees client server t0 t1 t2 session_id hello reply i j id e fits e' fits' =
        rw
          (
            send_hello_sends client t0 hello i e,
            answers_hello server t1 session_id hello reply j id e fits e',
            accepts_reply (record client { state = pending; last_activity = t0 }) t2 session_id
                reply refl e' fits',
          )
          (refl, refl, refl, refl, refl, id, refl)
