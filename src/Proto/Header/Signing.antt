-- ===== src/Proto/Header/Signing.antt =====
-- What the signature covers: every field but the context id, which the sequencer assigns, and
-- the signature itself (`signing_data` of crates/lockframe-proto/src/header.rs).
use mathlib.Core.List.{append_assoc}
use lockframe.Common.{
  ℕ, zero, suc, ◌+◌, ◌≡◌, refl, sym, ap, ◌∙◌, List, [], ◌∷◌, ◌++◌, arith, length, take, drop,
  take_left, drop_left, length-append, length-to_be_bytes, to_be_bytes,
}
use lockframe.Proto.Header.{FrameHeader, to_bytes, signing_data, set_log_index, ref_from_prefix}
use lockframe.Proto.Header.Layout.{IsSized, ref_from_prefix-to_bytes}

-- Bytes 0 to 39, and bytes 48 to 63.
head_fields : FrameHeader → List ℕ
head_fields h =
    h.magic
    ++ (h.version
        ∷ (h.flags
            ∷ (h.opcode ++ (h.request_id ++ (h.payload_size ++ (h.room_id ++ h.sender_id))))))

tail_fields : FrameHeader → List ℕ
tail_fields h = h.hlc_timestamp ++ h.epoch

to_bytes_parts :
    (h : FrameHeader)
    → to_bytes h ≡ head_fields h ++ (h.context_id ++ (tail_fields h ++ h.signature))
unfolding to_bytes head_fields tail_fields
to_bytes_parts h = simp append_assoc

length-head_fields : (h : FrameHeader) → IsSized h → length (head_fields h) ≡ 40
unfolding head_fields
length-head_fields h w = simp length-append (omega arith)

length-tail_fields : (h : FrameHeader) → IsSized h → length (tail_fields h) ≡ 16
unfolding tail_fields
length-tail_fields h w = simp length-append (omega arith)

drop-nil : (n : ℕ) → drop {A = ℕ} n [] ≡ []
drop-nil zero = refl
drop-nil (suc n) = refl

drop-add : (m n : ℕ) (xs : List ℕ) → drop n (drop m xs) ≡ drop (m + n) xs
drop-add zero n xs = ap (λ k. drop k xs) (omega arith)
drop-add (suc m) n [] = drop-nil n ∙ sym (drop-nil (suc m + n))
drop-add (suc m) n (x ∷ xs) =
    let e : suc (m + n) ≡ suc m + n = omega arith in drop-add m n xs ∙ ap (λ k. drop k (x ∷ xs)) e

signing_data_parts : (h : FrameHeader) → IsSized h → signing_data h ≡ head_fields h ++ tail_fields h
unfolding signing_data
signing_data_parts h w = rw (
  to_bytes_parts h,
  ← drop-add 40 8 (head_fields h ++ (h.context_id ++ (tail_fields h ++ h.signature))),
  take_left 40 (head_fields h) (h.context_id ++ (tail_fields h ++ h.signature))
      (length-head_fields h w),
  drop_left 40 (head_fields h) (h.context_id ++ (tail_fields h ++ h.signature))
      (length-head_fields h w),
  drop_left 8 h.context_id (tail_fields h ++ h.signature) w.context_id,
  take_left 16 (tail_fields h) h.signature (length-tail_fields h w),
)

-- Both arrays that the signature leaves out may change.
replaced : FrameHeader → List ℕ → List ℕ → FrameHeader
replaced h context signature = record h { context_id = context; signature = signature }

module _ (h : FrameHeader) (context signature : List ℕ) (w : IsSized h) (p : length context ≡ 8)
    (q : length signature ≡ 64) where
  replaced-IsSized : IsSized (replaced h context signature)
  unfolding replaced
  replaced-IsSized = record {
    magic = w.magic;
    opcode = w.opcode;
    request_id = w.request_id;
    payload_size = w.payload_size;
    room_id = w.room_id;
    sender_id = w.sender_id;
    context_id = p;
    hlc_timestamp = w.hlc_timestamp;
    epoch = w.epoch;
    signature = q;
  }

  signing_data-replaced : signing_data (replaced h context signature) ≡ signing_data h
  unfolding replaced head_fields tail_fields
  signing_data-replaced =
      signing_data_parts (replaced h context signature) replaced-IsSized
      ∙ sym (signing_data_parts h w)

-- The sequencer's assignment of a log index leaves the signed bytes of a header as they were.
pub signing_data-set_log_index :
    (h : FrameHeader) (n : ℕ) → IsSized h → signing_data (set_log_index h n) ≡ signing_data h
unfolding set_log_index replaced
signing_data-set_log_index h n w =
    signing_data-replaced h (to_be_bytes 8 n) h.signature w (length-to_be_bytes 8 n) w.signature

to_bytes_signed :
    (h : FrameHeader)
    → IsSized h
    → to_bytes h
      ≡ take 40 (signing_data h) ++ (h.context_id ++ (drop 40 (signing_data h) ++ h.signature))
to_bytes_signed h w =
    rw
      (
        signing_data_parts h w,
        take_left 40 (head_fields h) (tail_fields h) (length-head_fields h w),
        drop_left 40 (head_fields h) (tail_fields h) (length-head_fields h w),
      )
      (to_bytes_parts h)

to_bytes-injective : (g h : FrameHeader) → IsSized g → IsSized h → to_bytes g ≡ to_bytes h → g ≡ h
to_bytes-injective g h v w e =
    sym (ref_from_prefix-to_bytes g v [])
    ∙ ap (λ bytes. ref_from_prefix (bytes ++ [])) e
    ∙ ref_from_prefix-to_bytes h w []

-- Two headers with the same signed bytes differ at most in the context id and the signature.
pub signing_data-injective :
    (g h : FrameHeader)
    → IsSized g
    → IsSized h
    → signing_data g ≡ signing_data h
    → g ≡ record h { context_id = g.context_id; signature = g.signature }
unfolding replaced
signing_data-injective g h v w e =
    to_bytes-injective g (replaced h g.context_id g.signature) v sized (
      to_bytes_signed g v
      ∙ sym (rw (← same, ← e) at (to_bytes_signed (replaced h g.context_id g.signature) sized)))
  where
    sized : IsSized (replaced h g.context_id g.signature)
    sized = replaced-IsSized h g.context_id g.signature w v.context_id v.signature

    same : signing_data h ≡ signing_data (replaced h g.context_id g.signature)
    same = sym (signing_data-replaced h g.context_id g.signature w v.context_id v.signature)
