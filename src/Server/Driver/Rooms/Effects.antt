-- ===== src/Server/Driver/Rooms/Effects.antt =====
-- What routing a frame leaves alone (crates/lockframe-server/src/driver.rs).
use lockframe.Common.{ℕ, refl, List, Result, ok, err}
use lockframe.Proto.Frame.{Frame}
use lockframe.Proto.Payload.Types.{Text}
use lockframe.Proto.Payload.Coder.{Cbor}
use lockframe.Server.Storage.{Storage}
use lockframe.Server.RoomManager.{RoomManager, RoomAction, RoomError, process_frame}
use lockframe.Server.Driver.Types.{ServerDriver, ErrorText}
use lockframe.Server.Driver.Rooms.{routed, route_frame}
use lockframe.Server.Driver.Untouched.{Untouched, Untouched-trans, process_room_actions-Untouched}

module _ (cbor : Cbor) (to_string : ErrorText → Text) where
  module _ {S : Type 0} (st : Storage S) where
    routed-Untouched :
        (d : ServerDriver S) (session now : ℕ)
        (p : RoomManager × Result RoomError (List RoomAction))
        → Untouched d (routed cbor to_string st d session now p).0
    unfolding routed
    routed-Untouched d session now (rm, err e) = record {
      connections = refl;
      registry = refl;
      config = refl;
    }
    routed-Untouched d session now (rm, ok actions) =
        Untouched-trans (record { connections = refl; registry = refl; config = refl })
          (process_room_actions-Untouched cbor to_string st (record d { room_manager = rm }) actions
            session now)

    pub route_frame-Untouched :
        (d : ServerDriver S) (session : ℕ) (frame : Frame) (now : ℕ)
        → Untouched d (route_frame cbor to_string st d session frame now).0
    unfolding route_frame
    route_frame-Untouched d session frame now =
        routed-Untouched d session now (process_frame st d.room_manager frame now d.storage)
