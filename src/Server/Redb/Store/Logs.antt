-- ===== src/Server/Redb/Store/Logs.antt =====
-- What the durable store relies on in the database, and the log of a room in its table of frames
-- (crates/lockframe-server/src/storage/redb.rs).
use lockframe.Common.{
  ℕ, suc, ◌+◌, ◌-◌, ◌^◌, ◌<◌, ◌≤◌, ◌≡◌, refl, ap, ◌∙◌, List, [], ◌∷◌, ◌++◌, map, Bool, true, false,
  not, ◌&&◌, Option, some, leb, ◌==◌, if◌then◌else◌, ok, length, arith, is_empty,
}
use lockframe.Proto.Header.{to_bytes}
use lockframe.Proto.Frame.{Frame}
use lockframe.Server.Sequencer.{u64_max}
use lockframe.Server.Redb.{encode_frame_key, decode_frame_key}
use lockframe.Server.Redb.Order.{before, encode_frame_key-before, decode_frame_key-encode_frame_key}
use lockframe.Server.Redb.Store.{
  Table, Entry, Database, frames, mls_state, group_info, rooms, latest_of,
}

abbrev pub same : Table → Table → Bool
same frames frames = true
same mls_state mls_state = true
same group_info group_info = true
same rooms rooms = true
same _ _ = false

-- `lo..=hi` in the order of the keys.
abbrev pub within : List ℕ → List ℕ → List ℕ → Bool
within lo hi k = not (before k lo) && not (before hi k)

-- An entry put into a list in the order of the keys: a key that is there gets the new value.
unfoldable pub ordered_insert : List ℕ → List ℕ → List Entry → List Entry
ordered_insert k v [] = (k, v) ∷ []
ordered_insert k v ((j, w) ∷ entries) =
    let rest = ordered_insert k v entries in
    if before k j
    then (k, v) ∷ (j, w) ∷ entries
    else if before j k
    then (j, w) ∷ rest
    else (k, v) ∷ entries

-- The documented behaviour of a database without I/O errors: a range reads its entries in the
-- order of their keys, and an entry that was put is in the ranges that its key is in.
pub record IsOrderedTable {D : Type 0} (db : Database D)
    (view : D → Table → List ℕ → List ℕ → List Entry) : Type 0 where
  pub reads :
      (d : D) (t : Table) (lo hi : List ℕ) → db.range d t lo hi ≡ some (map some (view d t lo hi))
  pub puts :
      (d : D) (t : Table) (k v : List ℕ)
      → (d' : D) × (db.put d t k v ≡ some d')
        × ((t' : Table) (lo hi : List ℕ)
            → view d' t' lo hi ≡ (
                if same t t' && within lo hi k
                then ordered_insert k v (view d t' lo hi)
                else view d t' lo hi))

abbrev pub wire : Frame → List ℕ
wire f = to_bytes f.header ++ f.payload

-- The entries of a room's frames, from an index on.
abbrev pub entries : ℕ → ℕ → List Frame → List Entry
entries room i [] = []
entries room i (f ∷ fs) = (encode_frame_key room i, wire f) ∷ entries room (suc i) fs

abbrev pub room_bound : ℕ
room_bound = 256 ^ 16

pub entries-snoc :
    (room i : ℕ) (fs : List Frame) (f : Frame)
    → entries room i (fs ++ f ∷ [])
      ≡ entries room i fs ++ (encode_frame_key room (i + length fs), wire f) ∷ []
entries-snoc room i [] f = ap (λ k. (encode_frame_key room k, wire f) ∷ []) (omega arith)
entries-snoc room i (g ∷ fs) f =
    let e : suc i + length fs ≡ i + suc (length fs) = omega arith in
    ap (◌∷◌ (encode_frame_key room i, wire g)) (
      entries-snoc room (suc i) fs f
      ∙ ap (λ k. entries room (suc i) fs ++ (encode_frame_key room k, wire f) ∷ []) e)

-- The key of an index lies in the range of a room from an index on exactly if it is of that room,
-- and not before the index.
pub within-room :
    (room room' from n : ℕ)
    → room < room_bound
    → room' < room_bound
    → from ≤ u64_max
    → n ≤ u64_max
    → within
        (encode_frame_key room' from)
        (encode_frame_key room' u64_max)
        (encode_frame_key room n)
      ≡ (if room == room' then leb from n else false)
within-room room room' from n p p' q q' = ground (
  arith,
  encode_frame_key-before room room' n from p p' (omega arith) (omega arith),
  encode_frame_key-before room' room u64_max n p' p (omega arith) (omega arith),
)

-- A key behind all entries is put at the end.
pub ordered_insert_last :
    (room i : ℕ) (fs : List Frame) (v : List ℕ)
    → room < room_bound
    → i + length fs ≤ u64_max
    → ordered_insert (encode_frame_key room (i + length fs)) v (entries room i fs)
      ≡ entries room i fs ++ (encode_frame_key room (i + length fs), v) ∷ []
unfolding ordered_insert
ordered_insert_last room i [] v p q = refl
ordered_insert_last room i (f ∷ fs) v p q =
    let n = i + suc (length fs) in
    let e : suc i + length fs ≡ n = omega arith in
    let later : before (encode_frame_key room n) (encode_frame_key room i) ≡ false =
      encode_frame_key-before room room n i p p (omega arith) (omega arith) ∙ ground arith in
    let earlier : before (encode_frame_key room i) (encode_frame_key room n) ≡ true =
      encode_frame_key-before room room i n p p (omega arith) (omega arith) ∙ ground arith in
    let rest : ordered_insert (encode_frame_key room n) v (entries room (suc i) fs)
        ≡ entries room (suc i) fs ++ (encode_frame_key room n, v) ∷ [] =
      rw e at (ordered_insert_last room (suc i) fs v p (omega arith)) in
    rw (later, earlier) (ap (◌∷◌ (encode_frame_key room i, wire f)) rest)

-- The last index that the scan finds.
pub latest_of-entries :
    (latest : Option ℕ) (room i : ℕ) (fs : List Frame)
    → room < room_bound
    → i + length fs ≤ 2 ^ 64
    → latest_of latest (map some (entries room i fs))
      ≡ ok (if is_empty fs then latest else some (i + length fs - 1))
unfolding latest_of
latest_of-entries latest room i [] p q = refl
latest_of-entries latest room i (f ∷ []) p q =
    rw (decode_frame_key-encode_frame_key room i p (omega arith))
      (ap (λ k. ok (some k)) (omega arith))
latest_of-entries latest room i (f ∷ g ∷ fs) p q =
    latest_of-entries (some (decode_frame_key (encode_frame_key room i)).1) room (suc i) (g ∷ fs) p
      (omega arith)
    ∙ ap (λ k. ok (some k)) (omega arith)
