-- ===== src/Proto/Payload/Coding.antt =====
-- Payloads survive the trip through a frame (crates/lockframe-proto/src/payloads/mod.rs).
use lockframe.Common.{
  ℕ, ◌≤◌, ◌≡◌, refl, sym, subst, List, some, Result, ok, Result-cases, inl, inr, length, arith,
  ltb_of_le, to_be_bytes, from_be_bytes-to_be_bytes,
}
use lockframe.Proto.Errors.{ProtocolError}
use lockframe.Proto.Opcode.{to_u16}
use lockframe.Proto.Opcode.Codes.{to_u16-lt, from_u16-to_u16}
use lockframe.Proto.Header.{FrameHeader, max_payload_size, opcode_enum}
use lockframe.Proto.Header
use lockframe.Proto.Frame.{Frame}
use lockframe.Proto.Frame
use lockframe.Proto.Payload.{Payload, opcode, encode, decode_as, decode, into_frame, from_frame}
use lockframe.Proto.Payload.Coder.{Cbor, IsLossless}

-- The frame that `into_frame` makes of an encoded payload.
unfoldable pub framed : Payload → FrameHeader → List ℕ → Frame
framed p h bytes = Frame.new (record h { opcode = to_be_bytes 2 (to_u16 (opcode p)) }) bytes

pub opcode_enum-framed :
    (p : Payload) (h : FrameHeader) (bytes : List ℕ)
    → opcode_enum (framed p h bytes).header ≡ some (opcode p)
unfolding framed Frame.new opcode_enum Header.opcode
opcode_enum-framed p h bytes =
    rw (from_be_bytes-to_be_bytes 2 (to_u16 (opcode p)) (to_u16-lt (opcode p)))
      (from_u16-to_u16 (opcode p))

pub into_frame-framed :
    (cbor : Cbor) (p : Payload) (h : FrameHeader) (bytes : List ℕ)
    → encode cbor p ≡ ok bytes
    → into_frame cbor p h ≡ ok (framed p h bytes)
unfolding into_frame framed
into_frame-framed cbor p h bytes e = rw e

module _ (cbor : Cbor) (lossless : IsLossless cbor) where
  decode_as-encode :
      (p : Payload) (bytes : List ℕ)
      → encode cbor p ≡ ok bytes
      → decode_as cbor (opcode p) bytes ≡ ok p
  unfolding encode decode_as opcode
  decode_as-encode (Payload.hello x) bytes e = ground (arith, lossless.hello x bytes)
  decode_as-encode (Payload.hello_reply x) bytes e = ground (arith, lossless.hello_reply x bytes)
  decode_as-encode (Payload.goodbye x) bytes e = ground (arith, lossless.goodbye x bytes)
  decode_as-encode Payload.ping bytes e = refl
  decode_as-encode Payload.pong bytes e = refl
  decode_as-encode (Payload.sync_request x) bytes e = ground (arith, lossless.sync_request x bytes)
  decode_as-encode (Payload.sync_response x) bytes e =
      ground (arith, lossless.sync_response x bytes)
  decode_as-encode (Payload.key_package x) bytes e = ground (arith, lossless.key_package x bytes)
  decode_as-encode (Payload.proposal x) bytes e = ground (arith, lossless.proposal x bytes)
  decode_as-encode (Payload.commit x) bytes e = ground (arith, lossless.commit x bytes)
  decode_as-encode (Payload.welcome x) bytes e = ground (arith, lossless.welcome x bytes)
  decode_as-encode (Payload.key_package_publish x) bytes e =
      ground (arith, lossless.key_package_publish x bytes)
  decode_as-encode (Payload.key_package_fetch x) bytes e =
      ground (arith, lossless.key_package_fetch x bytes)
  decode_as-encode (Payload.group_info_request x) bytes e =
      ground (arith, lossless.group_info_request x bytes)
  decode_as-encode (Payload.group_info x) bytes e = ground (arith, lossless.group_info x bytes)
  decode_as-encode (Payload.app_message x) bytes e = ground (arith, lossless.app_message x bytes)
  decode_as-encode (Payload.app_receipt x) bytes e = ground (arith, lossless.app_receipt x bytes)
  decode_as-encode (Payload.app_reaction x) bytes e = ground (arith, lossless.app_reaction x bytes)
  decode_as-encode (Payload.redact x) bytes e = ground (arith, lossless.redact x bytes)
  decode_as-encode (Payload.ban x) bytes e = ground (arith, lossless.ban x bytes)
  decode_as-encode (Payload.kick x) bytes e = ground (arith, lossless.kick x bytes)
  decode_as-encode (Payload.error x) bytes e = ground (arith, lossless.error x bytes)

  -- A payload that encodes within the size limit decodes, under its own opcode, to itself.
  pub decode-encode :
      (p : Payload) (bytes : List ℕ)
      → encode cbor p ≡ ok bytes
      → length bytes ≤ max_payload_size
      → decode cbor (opcode p) bytes ≡ ok p
  unfolding decode
  decode-encode p bytes e fits =
      rw (ltb_of_le max_payload_size (length bytes) fits) (decode_as-encode p bytes e)

  pub from_frame-framed :
      (p : Payload) (h : FrameHeader) (bytes : List ℕ)
      → encode cbor p ≡ ok bytes
      → length bytes ≤ max_payload_size
      → from_frame cbor (framed p h bytes) ≡ ok p
  unfolding from_frame framed Frame.new
  from_frame-framed p h bytes e fits =
      rw (opcode_enum-framed p h bytes) (decode-encode p bytes e fits)

  -- Whatever opcode the header had, the frame that `into_frame` makes of a payload within the
  -- size limit carries that payload.
  pub from_frame-into_frame :
      (p : Payload) (h : FrameHeader) (f : Frame)
      → into_frame cbor p h ≡ ok f
      → length f.payload ≤ max_payload_size
      → from_frame cbor f ≡ ok p
  unfolding into_frame framed Frame.new
  from_frame-into_frame p h f e fits = elim (Result-cases (encode cbor p)) [
    | inr (failure, bad) ↦ cc (rw bad at e)
    | inl (bytes, good) ↦
        let made : ◌≡◌ {A = Result ProtocolError Frame} (ok (framed p h bytes)) (ok f) =
          rw good at e in
        let same : framed p h bytes ≡ f = cc made in
        subst (λ g. from_frame cbor g ≡ ok p) same
          (from_frame-framed p h bytes good
            (subst (λ g. length g.payload ≤ max_payload_size) (sym same) fits))
  ]
