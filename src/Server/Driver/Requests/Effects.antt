-- ===== src/Server/Driver/Requests/Effects.antt =====
-- What serving a request leaves alone (crates/lockframe-server/src/driver.rs).
use lockframe.Common.{ℕ, refl, Option-cases, inl, inr, Option, none, some, Result, ok, err, map_err}
use lockframe.Proto.Errors.{ProtocolError}
use lockframe.Proto.Header.{opcode_enum}
use lockframe.Proto.Header
use lockframe.Proto.Frame.{Frame}
use lockframe.Proto.Payload.Types.{Text, SyncRequest}
use lockframe.Proto.Payload.Coder.{Cbor}
use lockframe.Proto.Payload.{Payload}
use lockframe.Server.Storage.{Storage}
use lockframe.Server.Registry.{SessionInfo}
use lockframe.Server.RoomManager.{RoomAction, RoomError, handle_sync_request}
use lockframe.Server.KeyPackages.{KeyPackageRegistry, StoreResult, evicted}
use lockframe.Server.Driver.Types.{ServerDriver, ServerError, ErrorText}
use lockframe.Server.Driver.Requests.{
  sync_result, sync_looked_up, sync_requested, handle_sync, stored_package, publish, publish_as,
  handle_key_package_publish, fetch, handle_key_package_fetch, publish_group_info,
  handle_group_info_publish,
}
use lockframe.Server.Driver.Untouched.{Untouched, MayLeave, same, process_room_action-Untouched}
use lockframe.Server.Driver.Types

module _ (cbor : Cbor) (to_string : ErrorText → Text) where
  module _ {S : Type 0} (st : Storage S) where
    sync_result-Untouched :
        (d : ServerDriver S) (session room now : ℕ) (r : Result ServerError RoomAction)
        → Untouched d (sync_result cbor to_string st d session room now r).0
    unfolding sync_result
    sync_result-Untouched d session room now (ok action) =
        process_room_action-Untouched cbor to_string st d action session now
    sync_result-Untouched d session room now (err e) = same d

    sync_looked_up-MayLeave :
        (d : ServerDriver S) (session room now : ℕ) (r : Option (Result RoomError RoomAction))
        → MayLeave d (sync_looked_up cbor to_string st d session room now r)
    unfolding sync_looked_up
    sync_looked_up-MayLeave d session room now none = tt
    sync_looked_up-MayLeave d session room now (some r) =
        sync_result-Untouched d session room now (map_err Types.room r)

    sync_requested-MayLeave :
        (d : ServerDriver S) (session room now : ℕ) (r : Result ServerError SyncRequest)
        → MayLeave d (sync_requested cbor to_string st d session room now r)
    unfolding sync_requested
    sync_requested-MayLeave d session room now (err e) =
        sync_result-Untouched d session room now (err e)
    sync_requested-MayLeave d session room now (ok request) =
        sync_looked_up-MayLeave d session room now (
          handle_sync_request st d.room_manager room session request.from_log_index request.limit
            now d.storage)

    pub handle_sync-MayLeave :
        (d : ServerDriver S) (session : ℕ) (frame : Frame) (now : ℕ)
        → MayLeave d (handle_sync cbor to_string st d session frame now)
    unfolding handle_sync
    handle_sync-MayLeave d session frame now =
        sync_requested-MayLeave d session (Header.room_id frame.header) now _

  module _ {S : Type 0} where
    stored_package-MayLeave :
        (d : ServerDriver S) (user now : ℕ) (o : Option (KeyPackageRegistry × StoreResult))
        → MayLeave d (stored_package cbor to_string d user now o)
    unfolding stored_package
    stored_package-MayLeave d user now none = tt
    stored_package-MayLeave d user now (some (packages, evicted)) = record {
      connections = refl;
      registry = refl;
      config = refl;
    }
    stored_package-MayLeave d user now (some (packages, _)) = record {
      connections = refl;
      registry = refl;
      config = refl;
    }

    publish-MayLeave :
        (d : ServerDriver S) (session user now : ℕ) (r : Result ProtocolError Payload)
        → MayLeave d (publish cbor to_string d session user now r)
    unfolding publish
    publish-MayLeave d session user now (ok (Payload.key_package_publish request)) =
        stored_package-MayLeave d user now _
    publish-MayLeave d session user now (ok _) = same d
    publish-MayLeave d session user now (err e) = same d

    publish_as-MayLeave :
        (d : ServerDriver S) (session : ℕ) (frame : Frame) (now : ℕ) (known : Option SessionInfo)
        → MayLeave d (publish_as cbor to_string d session frame now known)
    unfolding publish_as
    publish_as-MayLeave d session frame now none = same d
    publish_as-MayLeave d session frame now (some known) = elim (Option-cases known.user_id) [
      | inl e ↦ rw e (same d)
      | inr (user, e) ↦ rw e (publish-MayLeave d session user now _)
    ]

    pub handle_key_package_publish-MayLeave :
        (d : ServerDriver S) (session : ℕ) (frame : Frame) (now : ℕ)
        → MayLeave d (handle_key_package_publish cbor to_string d session frame now)
    unfolding handle_key_package_publish
    handle_key_package_publish-MayLeave d session frame now =
        publish_as-MayLeave d session frame now _

    fetch-Untouched :
        (d : ServerDriver S) (session now : ℕ) (r : Result ProtocolError Payload)
        → Untouched d (fetch cbor to_string d session now r).0
    unfolding fetch
    fetch-Untouched d session now (ok (Payload.key_package_fetch request)) = record {
      connections = refl;
      registry = refl;
      config = refl;
    }
    fetch-Untouched d session now (ok _) = same d
    fetch-Untouched d session now (err e) = same d

    pub handle_key_package_fetch-Untouched :
        (d : ServerDriver S) (session : ℕ) (frame : Frame) (now : ℕ)
        → Untouched d (handle_key_package_fetch cbor to_string d session frame now).0
    unfolding handle_key_package_fetch
    handle_key_package_fetch-Untouched d session frame now = fetch-Untouched d session now _

  module _ {S : Type 0} (st : Storage S) where
    publish_group_info-Untouched :
        (d : ServerDriver S) (session now : ℕ) (r : Result ProtocolError Payload)
        → Untouched d (publish_group_info cbor to_string st d session now r).0
    unfolding publish_group_info
    publish_group_info-Untouched d session now (ok (Payload.group_info given)) = record {
      connections = refl;
      registry = refl;
      config = refl;
    }
    publish_group_info-Untouched d session now (ok _) = same d
    publish_group_info-Untouched d session now (err e) = same d

    pub handle_group_info_publish-Untouched :
        (d : ServerDriver S) (session : ℕ) (frame : Frame) (now : ℕ)
        → Untouched d (handle_group_info_publish cbor to_string st d session frame now).0
    unfolding handle_group_info_publish
    handle_group_info_publish-Untouched d session frame now =
        publish_group_info-Untouched d session now _
