-- ===== src/Client/Members.antt =====
-- Members and key packages of a client's rooms, and its timeouts
-- (crates/lockframe-client/src/client.rs).
pub mod Timeouts
pub mod Publishing
use lockframe.Common.{
  ℕ, ◌+◌, ◌-◌, List, [], ◌∷◌, ◌++◌, Bool, true, false, not, ◌&&◌, Option, none, some, is_some, ltb,
  ◌==◌, if◌then◌else◌, Result, ok, err, ◌>>=◌, map_err, length, min, Map, lookup, insert,
  contains_key, is_empty,
}
use lockframe.Proto.Errors.{ProtocolError}
use lockframe.Proto.Opcode.{Opcode}
use lockframe.Proto.Header
use lockframe.Proto.Frame.{Frame}
use lockframe.Proto.Payload.Types.{KeyPackageFetchPayload}
use lockframe.Proto.Payload.Coder.{Cbor}
use lockframe.Proto.Payload.{Payload, into_frame}
use lockframe.Core.Mls.{OpenMls, MlsGroup, MlsError, MlsAction, is_commit_timeout, u64_max}
use lockframe.Core.Mls.Membership.{epoch, generate_key_package}
use lockframe.Core.Mls.Commits.{add_members_from_bytes, remove_members, clear_pending_commit}
use lockframe.Client.Types.{
  Client, ClientError, ClientAction, Actions, Outcome, RoomState, Reading, InvalidText,
  room_not_found, invalid_frame, undecodable, no_pending_add, send, log_line, request_sync,
  member_added, key_package_published, published_key_package, fetching_key_package, added_user,
  add_failed, no_key_package, pending_room_missing, fetch_timed_out, commit_timed_out,
}
use lockframe.Client.Types
use lockframe.Client.Rooms.{of_mls, convert_mls_actions, with_room}

-- 30 seconds and a minute, in the unit of the instants.
abbrev pub commit_timeout : ℕ
commit_timeout = 30

abbrev pub key_package_fetch_timeout : ℕ
key_package_fetch_timeout = 60

abbrev pub PendingAdds : Type 0
PendingAdds = List ((ℕ × ℕ) × ℕ)

abbrev pub same_add : ℕ × ℕ → ℕ × ℕ → Bool
same_add (room, user) (room', user') = room == room' && user == user'

unfoldable pub remove_add : ℕ × ℕ → PendingAdds → PendingAdds
remove_add key [] = []
remove_add key ((other, at) ∷ adds) =
    let rest = remove_add key adds in if same_add other key then rest else (other, at) ∷ rest

-- `insert` of a hash map.
unfoldable pub insert_add : ℕ × ℕ → ℕ → PendingAdds → PendingAdds
insert_add key now adds = (key, now) ∷ remove_add key adds

-- The keys of the pending adds of a user.
unfoldable pub adds_of : ℕ → PendingAdds → List (ℕ × ℕ)
adds_of user_id [] = []
adds_of user_id (((room, user), at) ∷ adds) =
    let rest = adds_of user_id adds in if user == user_id then (room, user) ∷ rest else rest

-- The keys of the pending adds that have been waiting for too long.
unfoldable pub stale_adds : ℕ → PendingAdds → List (ℕ × ℕ)
stale_adds now [] = []
stale_adds now ((key, at) ∷ adds) =
    let rest = stale_adds now adds in
    if ltb key_package_fetch_timeout (now - at) then key ∷ rest else rest

unfoldable pub remove_adds : List (ℕ × ℕ) → PendingAdds → PendingAdds
remove_adds [] adds = adds
remove_adds (key ∷ keys) adds = remove_adds keys (remove_add key adds)

abbrev of_protocol : {A : Type 0} → Result ProtocolError A → Result ClientError A
of_protocol r = map_err (λ e. invalid_frame (Types.InvalidText.of_protocol e)) r

module _ {G P : Type 0} (mls : OpenMls G P) (cbor : Cbor) where
  -- The group after an operation, with the actions of it.
  unfoldable pub converted :
      Client G P → ℕ → RoomState G → MlsGroup G × Result MlsError (List MlsAction) → Outcome G P
  converted c room_id room (g, result) = (
    with_room c room_id (record room { mls_group = g }),
    of_mls result >>= λ actions. ok (convert_mls_actions cbor room_id actions),
  )

  unfoldable pub handle_add_members : Client G P → ℕ → List (List ℕ) → Reading → Outcome G P
  handle_add_members c room_id key_packages env = elim (lookup room_id c.rooms) [
    | none ↦ (c, err (room_not_found room_id))
    | some room ↦
        converted c room_id room (add_members_from_bytes mls room.mls_group env.now key_packages)
  ]

  unfoldable pub handle_remove_members : Client G P → ℕ → List ℕ → Reading → Outcome G P
  handle_remove_members c room_id member_ids env = elim (lookup room_id c.rooms) [
    | none ↦ (c, err (room_not_found room_id))
    | some room ↦ converted c room_id room (remove_members mls room.mls_group env.now member_ids)
  ]

  published : Client G P → Result MlsError (List ℕ × List ℕ × P) → Outcome G P
  published c (err e) = (c, of_mls (err e))
  published c (ok (bytes, hash_ref, state)) = (
    record c { pending_joins = (hash_ref, state) ∷ c.pending_joins },
    of_protocol (
          into_frame cbor
            (Payload.key_package_publish
              (record { key_package_bytes = bytes; hash_ref = hash_ref }))
            (Header.new Opcode.key_package_publish))
        >>= λ frame. ok (send frame ∷ log_line published_key_package ∷ key_package_published ∷ []),
  )

  -- Hash references of fresh key packages differ, so that the insertion replaces nothing.
  unfoldable pub handle_publish_key_package : Client G P → Reading → Outcome G P
  unfolding published
  handle_publish_key_package c env = published c (generate_key_package mls env.seed c.sender_id)

  package_kept :
      Client G P
      → Result MlsError (List ℕ × List ℕ × P)
      → Client G P × Result ClientError (List ℕ × List ℕ)
  package_kept c (err e) = (c, of_mls (err e))
  package_kept c (ok (bytes, hash_ref, state)) =
      (record c { pending_joins = (hash_ref, state) ∷ c.pending_joins }, ok (bytes, hash_ref))

  unfoldable pub generate_key_package_for :
      Client G P → Reading → Client G P × Result ClientError (List ℕ × List ℕ)
  unfolding package_kept
  generate_key_package_for c env = package_kept c (generate_key_package mls env.seed c.sender_id)

  unfoldable pub handle_fetch_and_add_member : Client G P → ℕ → ℕ → Reading → Outcome G P
  handle_fetch_and_add_member c room_id user_id env =
      if not (contains_key room_id c.rooms) then (c, err (room_not_found room_id)) else (
        record c { pending_adds = insert_add (room_id, user_id) env.now c.pending_adds },
        of_protocol (
              into_frame cbor
                (Payload.key_package_fetch
                  (record { user_id = user_id; key_package_bytes = []; hash_ref = [] }))
                (Header.new Opcode.key_package_fetch))
            >>= λ frame. ok (send frame ∷ log_line (fetching_key_package user_id room_id) ∷ []),
      )

  added :
      Client G P
      → ℕ
      → ℕ
      → RoomState G
      → MlsGroup G × Result MlsError (List MlsAction)
      → Client G P × Actions
  added c room_id user_id room (g, err e) = (
    with_room c room_id (record room { mls_group = g }),
    log_line (add_failed user_id room_id e) ∷ [],
  )
  added c room_id user_id room (g, ok actions) = (
    with_room c room_id (record room { mls_group = g }),
    convert_mls_actions cbor room_id actions
        ++ member_added room_id user_id ∷ log_line (added_user user_id room_id) ∷ [],
  )

  -- One pending add: its room gets the member.
  complete_add : Client G P → ℕ × ℕ → List ℕ → Reading → Client G P × Actions
  unfolding added
  complete_add c (room_id, user_id) bytes env = elim (lookup room_id c.rooms) [
    | none ↦ (
      record c { pending_adds = remove_add (room_id, user_id) c.pending_adds },
      log_line (pending_room_missing room_id) ∷ [],
    )
    | some room ↦
        added (record c { pending_adds = remove_add (room_id, user_id) c.pending_adds }) room_id
          user_id room (add_members_from_bytes mls room.mls_group env.now (bytes ∷ []))
  ]

  unfoldable pub complete_adds : Client G P → List (ℕ × ℕ) → List ℕ → Reading → Client G P × Actions
  unfolding complete_add
  complete_adds c [] bytes env = (c, [])
  complete_adds c (key ∷ keys) bytes env =
      let (c', first) = complete_add c key bytes env in
      let (c'', more) = complete_adds c' keys bytes env in (c'', first ++ more)

  -- An empty key package says that the user has none.
  fetched : Client G P → KeyPackageFetchPayload → Reading → Outcome G P
  fetched c payload env =
      let keys = adds_of payload.user_id c.pending_adds in
      if is_empty payload.key_package_bytes
      then (
        record c { pending_adds = remove_adds keys c.pending_adds },
        ok (log_line (no_key_package payload.user_id) ∷ []),
      )
      else if is_empty keys
      then (c, err (invalid_frame (no_pending_add payload.user_id)))
      else (
        (complete_adds c keys payload.key_package_bytes env).0,
        ok (complete_adds c keys payload.key_package_bytes env).1,
      )

  unfoldable pub handle_key_package_fetch_response : Client G P → Frame → Reading → Outcome G P
  unfolding fetched
  handle_key_package_fetch_response c frame env =
      elim (cbor.key_package_fetch.from_reader frame.payload) [
        | none ↦ (c, err (invalid_frame undecodable))
        | some payload ↦ fetched c payload env
      ]

unfoldable pub fetch_timeouts : List (ℕ × ℕ) → Actions
fetch_timeouts [] = []
fetch_timeouts ((room, user) ∷ keys) = log_line (fetch_timed_out user room) ∷ fetch_timeouts keys

module _ {G P : Type 0} (mls : OpenMls G P) where
  -- A room's turn in the loop of `handle_tick`. The pending commit is dropped, and the room asks
  -- for what it has missed.
  room_ticked : ℕ → RoomState G → ℕ → RoomState G × Result ClientError Actions
  room_ticked room_id room now =
      let at = epoch mls room.mls_group in
      if is_commit_timeout room.mls_group now commit_timeout
      then (
        record room { mls_group = (clear_pending_commit mls room.mls_group).0 },
        of_mls (clear_pending_commit mls room.mls_group).1 >>= λ _. ok (
            request_sync room_id at (min (at + 1) u64_max)
            ∷ log_line (commit_timed_out room_id at)
            ∷ []),
      )
      else (room, ok [])

  -- An error ends the loop; the rooms that had their turn stay as they are.
  unfoldable pub rooms_ticked :
      Map (RoomState G) → ℕ → Map (RoomState G) × Result ClientError Actions
  unfolding room_ticked
  rooms_ticked [] now = ([], ok [])
  rooms_ticked ((room_id, room) ∷ rooms) now =
      let (room', result) = room_ticked room_id room now in
      let (rooms', more) = rooms_ticked rooms now in
      elim result [
        | err e ↦ ((room_id, room') ∷ rooms, err e)
        | ok first ↦ ((room_id, room') ∷ rooms', more >>= λ rest. ok (first ++ rest))
      ]

  unfoldable pub handle_tick : Client G P → ℕ → Outcome G P
  handle_tick c now =
      let stale = stale_adds now c.pending_adds in
      let (rooms, result) = rooms_ticked c.rooms now in
      (
        record c { pending_adds = remove_adds stale c.pending_adds; rooms = rooms },
        result >>= λ actions. ok (fetch_timeouts stale ++ actions),
      )
