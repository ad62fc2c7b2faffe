-- ===== src/Server/Redb.antt =====
-- crates/lockframe-server/src/storage/redb.rs: the keys of the durable store's tables. The database
-- orders its keys byte by byte.
pub mod Order
pub mod Store
use lockframe.Common.{
  ℕ, List, [], ◌∷◌, ◌++◌, Bool, true, false, ltb, ◌==◌, if◌then◌else◌, take, drop, to_be_bytes,
  from_be_bytes,
}

unfoldable pub encode_frame_key : ℕ → ℕ → List ℕ
encode_frame_key room_id log_index = to_be_bytes 16 room_id ++ to_be_bytes 8 log_index

unfoldable pub decode_frame_key : List ℕ → ℕ × ℕ
decode_frame_key key = (from_be_bytes (take 16 key), from_be_bytes (drop 16 key))

unfoldable pub encode_room_key : ℕ → List ℕ
encode_room_key room_id = to_be_bytes 16 room_id
