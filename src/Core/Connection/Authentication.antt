-- ===== src/Core/Connection/Authentication.antt =====
-- Which frames authenticate a session (`handle_frame` in crates/lockframe-core/src/connection.rs).
pub mod Calls
use lockframe.Common.{
  ℕ, ◌≡◌, ◌≢◌, refl, ◌⊎◌, inl, inr, true, some, is_some, Option-cases, Result-cases, ap, ◌∙◌, ok,
  arith,
}
use lockframe.Proto.Opcode.{Opcode}
use lockframe.Proto.Header.{opcode_enum}
use lockframe.Proto.Frame.{Frame}
use lockframe.Proto.Payload.Types.{Hello, HelloReply}
use lockframe.Proto.Payload.Coder.{Cbor}
use lockframe.Proto.Payload.{Payload, from_frame}
use lockframe.Core.Connection.{
  Connection, ConnectionState, init, pending, authenticated, closed, update_activity, on_hello,
  on_hello_reply, dispatch, handle_frame,
}

module _ (cbor : Cbor) where
  on_hello-authenticated :
      (c : Connection) (p : Payload)
      → c.state ≢ authenticated
      → (on_hello cbor c p).0.state ≡ authenticated
      → (hello : Hello) × (p ≡ Payload.hello hello)
        × (hello.version ≡ 1)
        × (is_some c.session_id ≡ true)
  unfolding on_hello
  on_hello-authenticated c (Payload.hello hello) n h = (hello, refl, ground arith, ground arith)
  on_hello-authenticated c _ n h = absurd (n h)

  on_hello_reply-authenticated :
      (c : Connection) (p : Payload)
      → c.state ≢ authenticated
      → (on_hello_reply cbor c p).0.state ≡ authenticated
      → (reply : HelloReply) × (p ≡ Payload.hello_reply reply)
        × ((on_hello_reply cbor c p).0.session_id ≡ some reply.session_id)
  unfolding on_hello_reply
  on_hello_reply-authenticated c (Payload.hello_reply reply) n h = (reply, refl, refl)
  on_hello_reply-authenticated c _ n h = absurd (n h)

  -- A `Hello` of version 1 for a connection in `Init` with its session id set, or a `HelloReply`
  -- for one in `Pending`, whose session id is then kept.
  abbrev pub Authenticates : Connection → Frame → ConnectionState → Opcode → Connection → Type 0
  Authenticates c f s o after =
      ((hello : Hello) × (s ≡ init)
        × (o ≡ Opcode.hello)
        × (from_frame cbor f ≡ ok (Payload.hello hello))
        × (hello.version ≡ 1)
        × (is_some c.session_id ≡ true))
      ⊎ ((reply : HelloReply) × (s ≡ pending)
          × (o ≡ Opcode.hello_reply)
          × (from_frame cbor f ≡ ok (Payload.hello_reply reply))
          × (after.session_id ≡ some reply.session_id))

  dispatch-Authenticates :
      (c : Connection) (f : Frame) (s : ConnectionState) (o : Opcode)
      → c.state ≢ authenticated
      → (dispatch cbor c f s o).0.state ≡ authenticated
      → Authenticates c f s o (dispatch cbor c f s o).0
  unfolding dispatch
  dispatch-Authenticates c f init Opcode.hello n h = elim (Result-cases (from_frame cbor f)) [
    | inr (e, bad) ↦ absurd (n (rw (bad, dispatch) at h))
    | inl (p, good) ↦
        let (hello, is, one, set) = on_hello-authenticated c p n (rw (good, dispatch) at h) in
        inl (hello, refl, refl, good ∙ ap ok is, one, set)
  ]
  dispatch-Authenticates c f pending Opcode.hello_reply n h =
      elim (Result-cases (from_frame cbor f)) [
        | inr (e, bad) ↦ absurd (n (rw (bad, dispatch) at h))
        | inl (p, good) ↦
            let (reply, is, kept) = on_hello_reply-authenticated c p n (rw (good, dispatch) at h) in
            inr (reply, refl, refl, good ∙ ap ok is, rw (good, dispatch) kept)
      ]
  dispatch-Authenticates c f authenticated Opcode.ping n h = absurd (n h)
  dispatch-Authenticates c f authenticated Opcode.pong n h = absurd (n h)
  dispatch-Authenticates c f closed Opcode.goodbye n h = absurd (n h)
  dispatch-Authenticates c f _ Opcode.goodbye n h = absurd (ground arith)
  dispatch-Authenticates c f _ Opcode.error n h = absurd (ground arith)
  dispatch-Authenticates c f state code n h = absurd (n h)

  -- A frame that takes a connection from another state to `Authenticated` is a `Hello` of version
  -- 1 for a connection in `Init` with its session id set, or a `HelloReply` for one in `Pending`,
  -- whose session id is then kept.
  pub handle_frame-Authenticates :
      (c : Connection) (f : Frame) (now : ℕ)
      → c.state ≢ authenticated
      → (handle_frame cbor c f now).0.state ≡ authenticated
      → (o : Opcode) × (opcode_enum f.header ≡ some o)
        × Authenticates c f c.state o (handle_frame cbor c f now).0
  unfolding handle_frame
  handle_frame-Authenticates c f now n h = elim (Option-cases (opcode_enum f.header)) [
    | inl e ↦ absurd (n (rw (e, handle_frame) at h))
    | inr (o, e) ↦ (
      o,
      e,
      rw (e, handle_frame)
          (dispatch-Authenticates (update_activity c now) f c.state o n
            (rw (e, handle_frame) at h)),
    )
  ]
