-- ===== src/Client/Commits.antt =====
-- Commits in a client (crates/lockframe-client/src/client.rs): a new epoch brings new sender keys.
pub mod Rekeying
use lockframe.Common.{
  ℕ, List, [], ◌∷◌, ◌++◌, Bool, not, ◌&&◌, Option, none, some, ◌==◌, if◌then◌else◌, Result, ok, err,
  ◌>>=◌, map_err, lookup,
}
use lockframe.Proto.Header
use lockframe.Proto.Frame.{Frame}
use lockframe.Proto.Payload.Coder.{Cbor}
use lockframe.Core.Mls.{OpenMls, MlsGroup, MlsError, MlsAction, has_pending_commit}
use lockframe.Core.Mls.Membership.{epoch, own_leaf_index, export_state}
use lockframe.Core.Mls.Commits.{merge_pending_commit, has_mls_pending_commit, process_message}
use lockframe.Client.SenderKeys.{SenderKeyStore}
use lockframe.Client.Types.{
  Client, ClientError, Actions, Outcome, RoomState, room_not_found, persist_room, log_line,
  ignoring_own_commit,
}
use lockframe.Client.Rooms.{of_mls, convert_mls_actions, with_room, initialize_sender_keys, room_of}

module _ {G P : Type 0} (mls : OpenMls G P) (expand : List ℕ → List ℕ → ℕ → List ℕ)
    (cbor : Cbor) where
  -- The room with its new keys, and the snapshot of it; the keys stay if the snapshot fails.
  rekeyed :
      Client G P
      → ℕ
      → MlsGroup G
      → RoomState G
      → List MlsAction
      → Result ClientError SenderKeyStore
      → Outcome G P
  rekeyed c room_id g room mls_actions (err e) =
      (with_room c room_id (record room { mls_group = g }), err e)
  rekeyed c room_id g room mls_actions (ok sender_keys) = (
    with_room c room_id (room_of mls expand cbor g sender_keys),
    of_mls (export_state mls g) >>= λ mls_state. ok (
        convert_mls_actions cbor room_id mls_actions
        ++ persist_room (record {
          room_id = room_id;
          epoch = epoch mls g;
          mls_state = mls_state;
          my_leaf_index = own_leaf_index mls g;
        })
          ∷ []),
  )

  -- The group after the commit.
  applied :
      Client G P → ℕ → RoomState G → MlsGroup G × Result MlsError (List MlsAction) → Outcome G P
  unfolding rekeyed
  applied c room_id room (g, err e) =
      (with_room c room_id (record room { mls_group = g }), of_mls (err e))
  applied c room_id room (g, ok mls_actions) =
      rekeyed c room_id g room mls_actions (initialize_sender_keys mls expand cbor g)

  -- Our own commit is merged; one that is in the group already is skipped; any other is processed.
  committed_in : Client G P → ℕ → Frame → RoomState G → Outcome G P
  unfolding applied
  committed_in c room_id frame room =
      let own = Header.sender_id frame.header == c.sender_id in
      if own && has_pending_commit room.mls_group
      then applied c room_id room (merge_pending_commit mls room.mls_group)
      else if own && not (has_mls_pending_commit mls room.mls_group)
      then (c, ok (log_line (ignoring_own_commit room_id) ∷ []))
      else applied c room_id room (process_message mls room.mls_group frame)

  unfoldable pub handle_commit : Client G P → ℕ → Frame → Outcome G P
  unfolding committed_in
  handle_commit c room_id frame = elim (lookup room_id c.rooms) [
    | none ↦ (c, err (room_not_found room_id))
    | some room ↦ committed_in c room_id frame room
  ]
