-- ===== src/Core/GroupState.antt =====
-- crates/lockframe-core/src/mls/state.rs: the group state that a frame is validated against.
-- `[u8; 32]` keys and hashes are byte lists.
use lockframe.Common.{ℕ, List, [], Bool, Option, none, some, length, Map, lookup, contains}

pub record MlsGroupState : Type 0 where
  pub room_id : ℕ
  pub epoch : ℕ
  pub tree_hash : List ℕ
  pub members : List ℕ
  pub member_keys : Map (List ℕ)

unfoldable pub with_keys : ℕ → ℕ → List ℕ → List ℕ → Map (List ℕ) → MlsGroupState
with_keys room_id epoch tree_hash members member_keys = record {
  room_id = room_id;
  epoch = epoch;
  tree_hash = tree_hash;
  members = members;
  member_keys = member_keys;
}

unfoldable pub new : ℕ → ℕ → List ℕ → List ℕ → MlsGroupState
new room_id epoch tree_hash members = with_keys room_id epoch tree_hash members []

unfoldable pub is_member : MlsGroupState → ℕ → Bool
is_member g member_id = contains member_id g.members

unfoldable pub member_count : MlsGroupState → ℕ
member_count g = length g.members

-- `and_then` on the key that is stored for the member.
parsed : (List ℕ → Option (List ℕ)) → Option (List ℕ) → Option (List ℕ)
parsed from_bytes none = none
parsed from_bytes (some bytes) = from_bytes bytes

-- `from_bytes` is `VerifyingKey::from_bytes`.
unfoldable pub member_key : (List ℕ → Option (List ℕ)) → MlsGroupState → ℕ → Option (List ℕ)
unfolding parsed
member_key from_bytes g member_id = parsed from_bytes (lookup member_id g.member_keys)
