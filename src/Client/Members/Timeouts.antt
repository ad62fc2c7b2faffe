-- ===== src/Client/Members/Timeouts.antt =====
-- Commits and fetches do not wait for ever (crates/lockframe-client/src/client.rs).
use lockframe.Common.{
  ℕ, ◌≡◌, refl, [], ◌∷◌, false, Bool-cases, Result-cases, inl, inr, ok, err, All, Map,
}
use lockframe.Core.Mls.{OpenMls, is_commit_timeout}
use lockframe.Core.Mls.Commits.{clear_pending_commit}
use lockframe.Client.Types.{Client, Actions, RoomState}
use lockframe.Client.Members.{commit_timeout, room_ticked, rooms_ticked, handle_tick}

module _ {G P : Type 0} (mls : OpenMls G P) (now : ℕ) where
  -- No commit of the room has been waiting for the timeout or longer.
  abbrev pub IsPatient : ℕ × RoomState G → Type 0
  IsPatient (id, room) = is_commit_timeout room.mls_group now commit_timeout ≡ false

  room_ticked-IsPatient :
      (id : ℕ) (room : RoomState G) → IsPatient (id, (room_ticked mls id room now).0)
  unfolding room_ticked clear_pending_commit
  room_ticked-IsPatient id room =
      elim (Bool-cases (is_commit_timeout room.mls_group now commit_timeout)) [
        | inl late ↦ rw late (unfold is_commit_timeout in refl)
        | inr patient ↦ rw patient patient
      ]

  rooms_ticked-IsPatient :
      (rooms : Map (RoomState G)) (actions : Actions)
      → (rooms_ticked mls rooms now).1 ≡ ok actions
      → All IsPatient (rooms_ticked mls rooms now).0
  unfolding rooms_ticked
  rooms_ticked-IsPatient [] actions h = tt
  rooms_ticked-IsPatient ((id, room) ∷ rooms) actions h =
      elim (Result-cases (room_ticked mls id room now).1) [
        | inr (e, bad) ↦ cc (let k : err e ≡ ok actions = rw (bad, rooms_ticked) at h in k)
        | inl (first, good) ↦ elim (Result-cases (rooms_ticked mls rooms now).1) [
          | inr (e, bad) ↦ cc (let k : err e ≡ ok actions = rw (good, bad, rooms_ticked) at h in k)
          | inl (more, rest) ↦
              rw (good, rooms_ticked)
                (room_ticked-IsPatient id room, rooms_ticked-IsPatient rooms more rest)
        ]
      ]

  -- After a tick without an error no room waits for a commit that has timed out.
  pub handle_tick-IsPatient :
      (c : Client G P) (actions : Actions)
      → (handle_tick mls c now).1 ≡ ok actions
      → All IsPatient (handle_tick mls c now).0.rooms
  unfolding handle_tick
  handle_tick-IsPatient c actions h = elim (Result-cases (rooms_ticked mls c.rooms now).1) [
    | inr (e, bad) ↦ cc (let k : err e ≡ ok actions = rw bad at h in k)
    | inl (more, good) ↦ rooms_ticked-IsPatient c.rooms more good
  ]
