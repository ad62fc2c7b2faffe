-- ===== src/Server/Redb/Order.antt =====
-- The keys of frames keep the order of rooms and indices
-- (crates/lockframe-server/src/storage/redb.rs).
use native.Mathlib.Nat.{pow-suc}
use mathlib.Core.List.{append_assoc, append-nil}
use lockframe.Common.{
  ℕ, zero, suc, ◌/◌, ◌%◌, ◌^◌, ◌<◌, ◌≡◌, refl, ◌∙◌, List, [], ◌∷◌, ◌++◌, Bool, true, false, ltb,
  ◌==◌, if◌then◌else◌, take_left, drop_left, length-to_be_bytes, to_be_bytes,
  from_be_bytes-to_be_bytes, arith,
}
use lockframe.Server.Redb.{encode_frame_key, decode_frame_key}

-- Byte strings in the order of a dictionary: strictly before.
unfoldable pub before : List ℕ → List ℕ → Bool
before xs [] = false
before [] (b ∷ bs) = true
before (a ∷ rest') (b ∷ bs) =
    let rest = before rest' bs in if ltb a b then true else if a == b then rest else false

-- Before in the first number, or the same there and before in the rest.
before-to_be_bytes :
    (k m n : ℕ) (xs ys : List ℕ)
    → m < 256 ^ k
    → n < 256 ^ k
    → before (to_be_bytes k m ++ xs) (to_be_bytes k n ++ ys)
      ≡ (if ltb m n then true else if m == n then before xs ys else false)
unfolding to_be_bytes before
before-to_be_bytes zero m n xs ys p q = ground (arith, p, q)
before-to_be_bytes (suc k) m n xs ys p q =
    let p' : m / 256 < 256 ^ k = omega (arith, pow-suc 256 k) in
    let q' : n / 256 < 256 ^ k = omega (arith, pow-suc 256 k) in
    rw
      (
        append_assoc (to_be_bytes k (m / 256)) (m % 256 ∷ []) xs,
        append_assoc (to_be_bytes k (n / 256)) (n % 256 ∷ []) ys,
      )
      (before-to_be_bytes k (m / 256) (n / 256) (m % 256 ∷ xs) (n % 256 ∷ ys) p' q' ∙ ground arith)

before-index :
    (m n : ℕ) → m < 256 ^ 8 → n < 256 ^ 8 → before (to_be_bytes 8 m) (to_be_bytes 8 n) ≡ ltb m n
unfolding before
before-index m n p q =
    (rw (append-nil (to_be_bytes 8 m), append-nil (to_be_bytes 8 n)) at
      (before-to_be_bytes 8 m n [] [] p q))
    ∙ ground arith

-- The keys of two frames, of rooms of 16 bytes and indices of 8, stand in the order of the rooms,
-- and for one room in that of the indices.
pub encode_frame_key-before :
    (room room' index index' : ℕ)
    → room < 256 ^ 16
    → room' < 256 ^ 16
    → index < 256 ^ 8
    → index' < 256 ^ 8
    → before (encode_frame_key room index) (encode_frame_key room' index')
      ≡ (if ltb room room' then true else if room == room' then ltb index index' else false)
unfolding encode_frame_key
encode_frame_key-before room room' index index' p p' q q' =
    before-to_be_bytes 16 room room' (to_be_bytes 8 index) (to_be_bytes 8 index') p p'
    ∙ rw (before-index index index' q q') refl

-- A key decodes to the room and the index that it was made of.
pub decode_frame_key-encode_frame_key :
    (room index : ℕ)
    → room < 256 ^ 16
    → index < 256 ^ 8
    → decode_frame_key (encode_frame_key room index) ≡ (room, index)
unfolding encode_frame_key decode_frame_key
decode_frame_key-encode_frame_key room index p q =
    rw
      (
        take_left 16 (to_be_bytes 16 room) (to_be_bytes 8 index) (length-to_be_bytes 16 room),
        drop_left 16 (to_be_bytes 16 room) (to_be_bytes 8 index) (length-to_be_bytes 16 room),
        from_be_bytes-to_be_bytes 16 room p,
        from_be_bytes-to_be_bytes 8 index q,
      )
      refl
