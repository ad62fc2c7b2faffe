-- ===== src/Proto/Frame/Wire.antt =====
-- Encoding a frame and decoding it again (crates/lockframe-proto/src/frame.rs).
use mathlib.Core.List.{append_assoc}
use lockframe.Common.{
  ℕ, ◌+◌, ◌≤◌, ◌≡◌, sym, ◌∙◌, List, ◌++◌, ltb, ltb_of_le, le_of_ltb, Bool-cases, inl, inr, ok,
  Result-cases, length, take, drop, arith, length-append, length-take, length-drop, take_left,
  drop_left, to_be_bytes, length-to_be_bytes, from_be_bytes-to_be_bytes, from_be_bytes, subst,
}
use lockframe.Proto.Header.{
  FrameHeader, size, max_payload_size, magic_number, protocol_version, from_bytes, to_bytes,
}
use lockframe.Proto.Header
use lockframe.Proto.Header.Layout.{
  IsSized, IsValid, length-to_bytes, take-append, from_bytes-to_bytes, to_bytes_of_from_bytes,
}
use lockframe.Proto.Frame.{Frame, new, encode, read_payload, decode}

-- What decoding guarantees of a frame.
pub record IsWellFormed (f : Frame) : Type 0 where
  pub sized : IsSized f.header
  pub valid : IsValid f.header
  pub payload : length f.payload ≡ Header.payload_size f.header

pub read_payload_long :
    (bytes : List ℕ) (h : FrameHeader)
    → size + Header.payload_size h ≤ length bytes
    → read_payload bytes h
      ≡ ok (record { header = h; payload = take (Header.payload_size h) (drop size bytes) })
unfolding read_payload
read_payload_long bytes h le = rw (ltb_of_le _ _ le)

read_payload-append :
    (f : Frame) (rest : List ℕ)
    → IsWellFormed f
    → read_payload (to_bytes f.header ++ (f.payload ++ rest)) f.header ≡ ok f
read_payload-append f rest w =
    let enough : size + Header.payload_size f.header
        ≤ length (to_bytes f.header ++ (f.payload ++ rest)) =
      omega (
        arith,
        length-append (to_bytes f.header) (f.payload ++ rest),
        length-append f.payload rest,
        length-to_bytes f.header w.sized,
        w.payload,
      ) in
    read_payload_long _ f.header enough
    ∙ rw (
      drop_left size (to_bytes f.header) (f.payload ++ rest) (length-to_bytes f.header w.sized),
      take_left (Header.payload_size f.header) f.payload rest w.payload,
    )

-- A well-formed frame encodes, and the bytes decode to it again, whatever follows them.
pub decode-encode :
    (f : Frame) (rest : List ℕ)
    → IsWellFormed f
    → (bytes : List ℕ) × (encode f ≡ ok bytes) × (decode (bytes ++ rest) ≡ ok f)
unfolding encode decode
decode-encode f rest w = (
  to_bytes f.header ++ f.payload,
  rw (
      ltb_of_le max_payload_size (length f.payload)
        (omega (arith, w.payload, w.valid.payload_size))),
  rw (append_assoc, from_bytes-to_bytes f.header (f.payload ++ rest) w.sized w.valid)
      (read_payload-append f rest w),
)

payload_at : List ℕ → FrameHeader → Frame
payload_at bytes h = record { header = h; payload = take (Header.payload_size h) (drop size bytes) }

read_payload_inverse :
    (bytes : List ℕ) (h : FrameHeader) (f : Frame)
    → read_payload bytes h ≡ ok f
    → (size + Header.payload_size h ≤ length bytes) × (payload_at bytes h ≡ f)
unfolding read_payload payload_at
read_payload_inverse bytes h f e =
    elim (Bool-cases (ltb (length bytes) (size + Header.payload_size h))) [
      | inl short ↦ cc (rw short at e)
      | inr long ↦
          let e' : ok (payload_at bytes h) ≡ ok f = rw long at e in (le_of_ltb _ _ long, cc e')
    ]

encode-payload_at :
    (bytes : List ℕ) (h : FrameHeader)
    → size + Header.payload_size h ≤ length bytes
    → (to_bytes h ≡ take size bytes) × IsSized h × IsValid h
    → IsWellFormed (payload_at bytes h)
      × (encode (payload_at bytes h) ≡ ok (take (size + Header.payload_size h) bytes))
unfolding payload_at encode
encode-payload_at bytes h long (written, sized, valid) =
    let whole : length (take (Header.payload_size h) (drop size bytes)) ≡ Header.payload_size h =
      omega
        (arith, length-take (Header.payload_size h) (drop size bytes), length-drop size bytes) in
    let fits : length (take (Header.payload_size h) (drop size bytes)) ≤ max_payload_size =
      omega (arith, whole, valid.payload_size) in
    (
      record { sized = sized; valid = valid; payload = whole },
      rw (
        ltb_of_le max_payload_size _ fits,
        written,
        take-append size (Header.payload_size h) bytes,
      ),
    )

-- Decoding succeeds only on bytes that begin with the encoding of a well-formed frame.
pub encode-decode :
    (bytes : List ℕ) (f : Frame)
    → decode bytes ≡ ok f
    → IsWellFormed f × (encode f ≡ ok (take (size + Header.payload_size f.header) bytes))
unfolding decode payload_at
encode-decode bytes f e = elim (Result-cases (from_bytes bytes)) [
  | inr (failure, refused) ↦ cc (rw refused at e)
  | inl (h, parsed) ↦
      let (long, same) = read_payload_inverse bytes h f (rw parsed at e) in
      subst
        (λ g. IsWellFormed g × (encode g ≡ ok (take (size + Header.payload_size g.header) bytes)))
        same (encode-payload_at bytes h long (to_bytes_of_from_bytes bytes h parsed))
]

-- A frame made by `Frame::new` from a header of the current version is well formed if its
-- payload keeps to the limit.
pub new-IsWellFormed :
    (h : FrameHeader) (payload : List ℕ)
    → IsSized h
    → Header.magic h ≡ magic_number
    → h.version ≡ protocol_version
    → length payload ≤ max_payload_size
    → IsWellFormed (new h payload)
unfolding new Header.payload_size Header.magic
new-IsWellFormed h payload w m v fits =
    let read : from_be_bytes (to_be_bytes 4 (length payload)) ≡ length payload =
      from_be_bytes-to_be_bytes 4 (length payload) (omega arith) in
    record {
      sized = record {
        magic = w.magic;
        opcode = w.opcode;
        request_id = w.request_id;
        payload_size = length-to_be_bytes 4 (length payload);
        room_id = w.room_id;
        sender_id = w.sender_id;
        context_id = w.context_id;
        hlc_timestamp = w.hlc_timestamp;
        epoch = w.epoch;
        signature = w.signature;
      };
      valid = record { magic = m; version = v; payload_size = rw read fits };
      payload = sym read;
    }
