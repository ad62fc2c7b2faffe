-- ===== src/Server/KeyPackages.antt =====
-- crates/lockframe-server/src/key_package_registry.rs: the key packages that users publish, one
-- per user, each handed out once, the oldest evicted when the registry is full.
--
-- The mutex serialises the calls: an operation is a function on the state it guards. The
-- workspace is built with overflow checks, so the counter panics at the end of `u64`; `none` is
-- that panic.
pub mod Queue
pub mod Order
pub mod Refinement
use lockframe.Common.{
  ℕ, suc, List, [], ◌∷◌, ◌++◌, Bool, true, false, not, Option, none, some, is_some, if◌then◌else◌,
  ltb, leb, length, Map, lookup, insert, remove, contains_key, set_remove,
}

unfoldable pub default_max_capacity : ℕ
default_max_capacity = 1000

abbrev pub u64_max : ℕ
u64_max = 18446744073709551615

pub data StoreResult : Type 0 where
  success : StoreResult
  evicted : StoreResult
  full : StoreResult

pub record KeyPackageEntry : Type 0 where
  pub key_package_bytes : List ℕ
  pub hash_ref : List ℕ
  pub timestamp : ℕ

unfoldable pub entry : List ℕ → List ℕ → KeyPackageEntry
entry key_package_bytes hash_ref = record {
  key_package_bytes = key_package_bytes;
  hash_ref = hash_ref;
  timestamp = 0;
}

pub record KeyPackageRegistry : Type 0 where
  pub entries : Map KeyPackageEntry
  pub lru_order : List ℕ
  pub max_capacity : ℕ
  pub timestamp_counter : ℕ

unfoldable pub with_capacity : ℕ → KeyPackageRegistry
with_capacity max_capacity = record {
  entries = [];
  lru_order = [];
  max_capacity = max_capacity;
  timestamp_counter = 0;
}

unfoldable pub new : KeyPackageRegistry
new = with_capacity default_max_capacity

abbrev pub stamped : KeyPackageRegistry → KeyPackageEntry → KeyPackageEntry
stamped g e = record e { timestamp = g.timestamp_counter }

-- The last lines of `store`: the entry goes in, its user to the back of the order.
abbrev placed :
    KeyPackageRegistry → ℕ → KeyPackageEntry → Map KeyPackageEntry → List ℕ → KeyPackageRegistry
placed g user_id e entries lru_order = record g {
  entries = insert user_id e entries;
  lru_order = lru_order ++ user_id ∷ [];
  timestamp_counter = suc g.timestamp_counter;
}

-- `match inner.lru_order.pop_front()`.
evict_oldest : KeyPackageRegistry → ℕ → KeyPackageEntry → List ℕ → KeyPackageRegistry × StoreResult
evict_oldest g user_id e [] = (record g { timestamp_counter = suc g.timestamp_counter }, full)
evict_oldest g user_id e (oldest_id ∷ lru_order) =
    (placed g user_id e (remove oldest_id g.entries) lru_order, evicted)

unfoldable pub store_entry :
    KeyPackageRegistry → ℕ → KeyPackageEntry → KeyPackageRegistry × StoreResult
unfolding evict_oldest
store_entry g user_id e =
    if contains_key user_id g.entries
    then (placed g user_id e g.entries (set_remove user_id g.lru_order), success)
    else if leb g.max_capacity (length g.entries)
    then evict_oldest g user_id e g.lru_order
    else (placed g user_id e g.entries g.lru_order, success)

unfoldable pub store :
    KeyPackageRegistry → ℕ → KeyPackageEntry → Option (KeyPackageRegistry × StoreResult)
unfolding store_entry
store g user_id e =
    if ltb g.timestamp_counter u64_max then some (store_entry g user_id (stamped g e)) else none

unfoldable pub take : KeyPackageRegistry → ℕ → KeyPackageRegistry × Option KeyPackageEntry
take g user_id = (
  if contains_key user_id g.entries
      then record g {
        entries = remove user_id g.entries;
        lru_order = set_remove user_id g.lru_order;
      }
      else g,
  lookup user_id g.entries,
)

unfoldable pub has : KeyPackageRegistry → ℕ → Bool
has g user_id = contains_key user_id g.entries

unfoldable pub count : KeyPackageRegistry → ℕ
count g = length g.entries

unfoldable pub capacity : KeyPackageRegistry → ℕ
capacity g = g.max_capacity

unfoldable pub is_full : KeyPackageRegistry → Bool
is_full g = leb g.max_capacity (length g.entries)
