-- ===== src/Server/RoomManager/Log.antt =====
-- Processing a frame and persisting it: `ServerDriver` in crates/lockframe-server/src/driver.rs
-- gives each frame to the room manager and stores what it is told to persist, in order.
pub mod Step
pub mod Order
use lockframe.Common.{ℕ, List, [], ◌∷◌, Result, ok, err}
use lockframe.Proto.Frame.{Frame}
use lockframe.Server.Storage.{Storage, StorageError, conflict}
use lockframe.Server.RoomManager.{
  RoomManager, RoomAction, RoomError, broadcast, persist_frame, reject, send_sync_response,
  clear_room_sequencer, process_frame,
}

module _ {S : Type 0} (st : Storage S) where
  -- A conflict drops the cached index, so that the next frame reads it from the store again.
  unfoldable pub on_stored : RoomManager → ℕ → S × Result StorageError (Unit {0}) → RoomManager × S
  on_stored rm room_id (s, ok _) = (rm, s)
  on_stored rm room_id (s, err (conflict expected got)) = ((clear_room_sequencer rm room_id).0, s)
  on_stored rm room_id (s, err _) = (rm, s)

  -- The effect of `process_room_action` on the room manager and the store.
  unfoldable pub persist : RoomManager → S → RoomAction → RoomManager × S
  unfolding on_stored
  persist rm s (persist_frame room_id log_index frame now) =
      on_stored rm room_id (st.store_frame s room_id log_index frame)
  persist rm s _ = (rm, s)

  unfoldable pub persist_all : RoomManager → S → List RoomAction → RoomManager × S
  persist_all rm s [] = (rm, s)
  persist_all rm s (action ∷ actions) =
      let (rm', s') = persist rm s action in persist_all rm' s' actions

  unfoldable pub after_process :
      S → RoomManager × Result RoomError (List RoomAction) → RoomManager × S
  unfolding persist persist_all
  after_process s (rm, err e) = (rm, s)
  after_process s (rm, ok actions) = persist_all rm s actions

  -- A frame, and the instant at which it arrives: the part of the driver's `route_frame` that works on
  -- the room manager and the store.
  unfoldable pub submit : RoomManager → S → Frame × ℕ → RoomManager × S
  unfolding after_process
  submit rm s (frame, now) = after_process s (process_frame st rm frame now s)

  unfoldable pub submit_all : RoomManager → S → List (Frame × ℕ) → RoomManager × S
  submit_all rm s [] = (rm, s)
  submit_all rm s (frame ∷ frames) = let (rm', s') = submit rm s frame in submit_all rm' s' frames
