-- ===== src/Client/Commits/Rekeying.antt =====
-- Sender keys follow the epoch of the group (crates/lockframe-client/src/client.rs), where a frame is treated as
-- a commit.
use lockframe.Common.{
  ℕ, ◌≡◌, refl, ◌∙◌, List, ◌⊎◌, Bool, true, false, not, ◌&&◌, some, Bool-cases, inl, inr, ◌==◌,
  ==_self, Result, ok, err, lookup, insert, lookup-insert,
}
use lockframe.Proto.Header
use lockframe.Proto.Frame.{Frame}
use lockframe.Proto.Payload.Coder.{Cbor}
use lockframe.Core.Mls.{OpenMls, MlsGroup, MlsError, MlsAction, has_pending_commit}
use lockframe.Core.Mls.Membership.{own_leaf_index}
use lockframe.Core.Mls.Commits.{merge_pending_commit, has_mls_pending_commit, process_message}
use lockframe.Client.SenderKeys.{SenderKeyStore}
use lockframe.Client.Types.{Client, ClientError, Actions, RoomState}
use lockframe.Client.Rooms.{initialize_sender_keys, room_of}
use lockframe.Client.Commits.{rekeyed, applied, committed_in, handle_commit}

lookup_inserted :
    {V : Type 0} → (k : ℕ) (v : V) (m : List (ℕ × V)) → lookup k (insert k v m) ≡ some v
lookup_inserted k v m = lookup-insert k k v m ∙ rw (==_self k)

old_news :
    (own pending inner : Bool)
    → (own && pending) ≡ false
    → (own && not inner) ≡ true
    → (own ≡ true) × (pending ≡ false) × (inner ≡ false)
old_news true false false p q = (refl, refl, refl)
old_news true true inner p q = cc
old_news true false true p q = cc
old_news false pending inner p q = cc

module _ {G P : Type 0} (mls : OpenMls G P) (expand : List ℕ → List ℕ → ℕ → List ℕ)
    (cbor : Cbor) where
  -- The sender keys of a room are fresh ones for the epoch and the members of its group.
  abbrev pub IsKeyed : RoomState G → Type 0
  IsKeyed room =
      (initialize_sender_keys mls expand cbor room.mls_group ≡ ok room.sender_keys)
      × (room.my_leaf_index ≡ own_leaf_index mls room.mls_group)

  abbrev pub HasKeyed : Client G P → ℕ → Type 0
  HasKeyed c r = (room : RoomState G) × (lookup r c.rooms ≡ some room) × IsKeyed room

  rekeyed-HasKeyed :
      (c : Client G P) (r : ℕ) (g : MlsGroup G) (room : RoomState G) (mls_actions : List MlsAction)
      (keys : Result ClientError SenderKeyStore) (actions : Actions)
      → initialize_sender_keys mls expand cbor g ≡ keys
      → (rekeyed mls expand cbor c r g room mls_actions keys).1 ≡ ok actions
      → HasKeyed (rekeyed mls expand cbor c r g room mls_actions keys).0 r
  unfolding rekeyed
  rekeyed-HasKeyed c r g room mls_actions (err e) actions fresh h = cc
  rekeyed-HasKeyed c r g room mls_actions (ok keys) actions fresh h = (
    room_of mls expand cbor g keys,
    lookup_inserted r (room_of mls expand cbor g keys) c.rooms,
    (fresh, refl),
  )

  applied-HasKeyed :
      (c : Client G P) (r : ℕ) (room : RoomState G)
      (p : MlsGroup G × Result MlsError (List MlsAction)) (actions : Actions)
      → (applied mls expand cbor c r room p).1 ≡ ok actions
      → HasKeyed (applied mls expand cbor c r room p).0 r
  unfolding applied
  applied-HasKeyed c r room (g, err e) actions h = cc
  applied-HasKeyed c r room (g, ok mls_actions) actions h =
      rekeyed-HasKeyed c r g room mls_actions (initialize_sender_keys mls expand cbor g) actions
        refl h

  -- The client's own commit, which its group has applied already.
  abbrev pub IsOldNews : Client G P → RoomState G → Frame → Type 0
  IsOldNews c room f =
      ((Header.sender_id f.header == c.sender_id) ≡ true)
      × (has_pending_commit room.mls_group ≡ false)
      × (has_mls_pending_commit mls room.mls_group ≡ false)

  -- A commit for a room of the client that is handled without an error leaves the room with
  -- fresh sender keys for the epoch and the members of the group after the commit, and with the
  -- client's leaf in it; or it is the client's own, no longer pending, and the client stays as it
  -- was.
  pub handle_commit-rekeys :
      (c : Client G P) (r : ℕ) (f : Frame) (room : RoomState G) (actions : Actions)
      → lookup r c.rooms ≡ some room
      → (handle_commit mls expand cbor c r f).1 ≡ ok actions
      → HasKeyed (handle_commit mls expand cbor c r f).0 r
        ⊎ (IsOldNews c room f × ((handle_commit mls expand cbor c r f).0 ≡ c))
  unfolding handle_commit committed_in
  handle_commit-rekeys c r f room actions here h =
      let own = Header.sender_id f.header == c.sender_id in
      elim (Bool-cases (own && has_pending_commit room.mls_group)) [
        | inl merge ↦
            rw (here, handle_commit, committed_in, merge)
              (inl (
                applied-HasKeyed c r room (merge_pending_commit mls room.mls_group) actions
                  (rw (here, handle_commit, committed_in, merge) at h)))
        | inr plain ↦ elim (Bool-cases (own && not (has_mls_pending_commit mls room.mls_group))) [
          | inl old ↦
              rw (here, handle_commit, committed_in, plain, old)
                (inr (
                  old_news own (has_pending_commit room.mls_group)
                      (has_mls_pending_commit mls room.mls_group) plain old,
                  refl,
                ))
          | inr new ↦
              rw (here, handle_commit, committed_in, plain, new)
                (inl (
                  applied-HasKeyed c r room (process_message mls room.mls_group f) actions
                    (rw (here, handle_commit, committed_in, plain, new) at h)))
        ]
      ]
