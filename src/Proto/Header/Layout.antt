-- ===== src/Proto/Header/Layout.antt =====
-- The header's layout: what `to_bytes` writes, `ref_from_prefix` and `from_bytes` read back
-- (crates/lockframe-proto/src/header.rs).
use lockframe.Common.{
  ℕ, ◌≡◌, refl, sym, ap, ◌∙◌, List, [], ◌∷◌, ◌++◌, ok, Bool-cases, ltb, inl, inr, arith, zero, suc,
  ◌+◌, length, take, drop, take_left, take-nil, drop_left, length-append, length-take, length-drop,
  ◌≤◌,
}
use mathlib.Core.List.{append_assoc}
use lockframe.Proto.Header.{
  FrameHeader, byte, size, ref_from_prefix, check_header, from_bytes, to_bytes, magic_number,
  protocol_version, max_payload_size,
}
use lockframe.Proto.Header

-- The arrays have their lengths. Every header of the program does.
pub record IsSized (h : FrameHeader) : Type 0 where
  pub magic : length h.magic ≡ 4
  pub opcode : length h.opcode ≡ 2
  pub request_id : length h.request_id ≡ 4
  pub payload_size : length h.payload_size ≡ 4
  pub room_id : length h.room_id ≡ 16
  pub sender_id : length h.sender_id ≡ 8
  pub context_id : length h.context_id ≡ 8
  pub hlc_timestamp : length h.hlc_timestamp ≡ 8
  pub epoch : length h.epoch ≡ 8
  pub signature : length h.signature ≡ 64

-- The protocol's magic number and version, and a payload within the limit.
pub record IsValid (h : FrameHeader) : Type 0 where
  pub magic : Header.magic h ≡ magic_number
  pub version : h.version ≡ protocol_version
  pub payload_size : Header.payload_size h ≤ max_payload_size

pub check_header-IsValid : (h : FrameHeader) → IsValid h → check_header h ≡ ok h
unfolding check_header Header.magic Header.payload_size
check_header-IsValid h v = ground (arith, v.magic, v.version, v.payload_size)

pub check_header_ok : (h g : FrameHeader) → check_header h ≡ ok g → (g ≡ h) × IsValid h
unfolding check_header Header.magic Header.payload_size
check_header_ok h g e = ground arith

-- Reading past what precedes a field, and then the field.
module _ (h : FrameHeader) (w : IsSized h) where
  pub ref_from_prefix-to_bytes : (rest : List ℕ) → ref_from_prefix (to_bytes h ++ rest) ≡ h
  unfolding ref_from_prefix to_bytes
  ref_from_prefix-to_bytes rest = simp (
    append_assoc,
    take_left 4 h.magic,
    drop_left 4 h.magic,
    w.magic,
    take_left 2 h.opcode,
    drop_left 2 h.opcode,
    w.opcode,
    take_left 4 h.request_id,
    drop_left 4 h.request_id,
    w.request_id,
    take_left 4 h.payload_size,
    drop_left 4 h.payload_size,
    w.payload_size,
    take_left 16 h.room_id,
    drop_left 16 h.room_id,
    w.room_id,
    take_left 8 h.sender_id,
    drop_left 8 h.sender_id,
    w.sender_id,
    take_left 8 h.context_id,
    drop_left 8 h.context_id,
    w.context_id,
    take_left 8 h.hlc_timestamp,
    drop_left 8 h.hlc_timestamp,
    w.hlc_timestamp,
    take_left 8 h.epoch,
    drop_left 8 h.epoch,
    w.epoch,
    take_left 64 h.signature,
    w.signature,
  )

  pub length-to_bytes : length (to_bytes h) ≡ size
  unfolding to_bytes
  length-to_bytes = simp length-append (omega arith)

  pub from_bytes-to_bytes_sized : (rest : List ℕ) → from_bytes (to_bytes h ++ rest) ≡ check_header h
  unfolding from_bytes
  from_bytes-to_bytes_sized rest =
      ground
        (arith, length-append (to_bytes h) rest, length-to_bytes, ref_from_prefix-to_bytes rest)

-- The bytes of a valid header, whatever follows them, parse to that header.
pub from_bytes-to_bytes :
    (h : FrameHeader) (rest : List ℕ)
    → IsSized h
    → IsValid h
    → from_bytes (to_bytes h ++ rest) ≡ ok h
from_bytes-to_bytes h rest w v = from_bytes-to_bytes_sized h w rest ∙ check_header-IsValid h v

byte-take : (n : ℕ) (xs : List ℕ) → 1 ≤ length xs → byte xs ∷ take n (drop 1 xs) ≡ take (suc n) xs
byte-take n [] p = elim p [ ]
byte-take n (x ∷ xs) p = refl

pub take-append : (m n : ℕ) (xs : List ℕ) → take m xs ++ take n (drop m xs) ≡ take (m + n) xs
take-append zero n xs = ap (λ k. take k xs) (omega arith)
take-append (suc m) n [] = take-nil n ∙ sym (take-nil (suc m + n))
take-append (suc m) n (x ∷ xs) =
    let e : suc (m + n) ≡ suc m + n = omega arith in
    ap (◌∷◌ x) (take-append m n xs) ∙ ap (λ k. take k (x ∷ xs)) e

module _ (bytes : List ℕ) (long : size ≤ length bytes) where
  pub ref_from_prefix-IsSized : IsSized (ref_from_prefix bytes)
  unfolding ref_from_prefix
  ref_from_prefix-IsSized = record {
    magic = omega (arith, length-take {0} {A = ℕ}, length-drop {0} {A = ℕ});
    opcode = omega (arith, length-take {0} {A = ℕ}, length-drop {0} {A = ℕ});
    request_id = omega (arith, length-take {0} {A = ℕ}, length-drop {0} {A = ℕ});
    payload_size = omega (arith, length-take {0} {A = ℕ}, length-drop {0} {A = ℕ});
    room_id = omega (arith, length-take {0} {A = ℕ}, length-drop {0} {A = ℕ});
    sender_id = omega (arith, length-take {0} {A = ℕ}, length-drop {0} {A = ℕ});
    context_id = omega (arith, length-take {0} {A = ℕ}, length-drop {0} {A = ℕ});
    hlc_timestamp = omega (arith, length-take {0} {A = ℕ}, length-drop {0} {A = ℕ});
    epoch = omega (arith, length-take {0} {A = ℕ}, length-drop {0} {A = ℕ});
    signature = omega (arith, length-take {0} {A = ℕ}, length-drop {0} {A = ℕ});
  }

  to_bytes-ref_from_prefix : to_bytes (ref_from_prefix bytes) ≡ take size bytes
  unfolding ref_from_prefix to_bytes
  to_bytes-ref_from_prefix = simp take-append (
      rw (
        byte-take 122 (drop 1 (drop 4 bytes)) (omega (arith, length-drop {0} {A = ℕ})),
        byte-take 123 (drop 4 bytes) (omega (arith, length-drop {0} {A = ℕ})),
        take-append 4 124 bytes,
      ))

-- A parse keeps the bytes that it read: it succeeds only on the bytes of a valid header.
pub to_bytes_of_from_bytes :
    (bytes : List ℕ) (h : FrameHeader)
    → from_bytes bytes ≡ ok h
    → (to_bytes h ≡ take size bytes) × IsSized h × IsValid h
unfolding from_bytes
to_bytes_of_from_bytes bytes h e = elim (Bool-cases (ltb (length bytes) size)) [
  | inl short ↦ cc (rw short at e)
  | inr long ↦
      let checked : check_header (ref_from_prefix bytes) ≡ ok h = rw long at e in
      let (same, valid) = check_header_ok _ h checked in
      let le : size ≤ length bytes = ground arith in
      rw same (to_bytes-ref_from_prefix bytes le, ref_from_prefix-IsSized bytes le, valid)
]
