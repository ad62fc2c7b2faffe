-- ===== src/Server/Driver/Requests/Steadiness.antt =====
-- Serving a request leaves the logs alone (crates/lockframe-server/src/driver.rs).
use lockframe.Common.{ℕ, refl, Option-cases, List, inl, inr, Option, none, some, Result, ok, err}
use lockframe.Proto.Errors.{ProtocolError}
use lockframe.Proto.Header.{opcode_enum}
use lockframe.Proto.Header
use lockframe.Proto.Frame.{Frame}
use lockframe.Proto.Payload.Types.{Text, SyncRequest}
use lockframe.Proto.Payload.Coder.{Cbor}
use lockframe.Proto.Payload.{Payload}
use lockframe.Server.Storage.{KeepsLogs, Storage}
use lockframe.Server.Registry.{SessionInfo}
use lockframe.Server.RoomManager.{
  RoomManager, RoomAction, RoomError, process_frame, handle_sync_request,
}
use lockframe.Server.RoomManager
use lockframe.Server.KeyPackages.{KeyPackageRegistry, StoreResult, evicted}
use lockframe.Server.Driver.Types.{ServerDriver, ServerError, ErrorText}
use lockframe.Server.RoomManager.Sync.{AnswersOnly, handle_sync_request-AnswersOnly}
use lockframe.Server.Driver.Replies.{Actions, process_room_action}
use lockframe.Server.Driver.Requests.{
  sync_result, sync_looked_up, sync_requested, handle_sync, stored_package, publish, publish_as,
  handle_key_package_publish, fetch, handle_key_package_fetch, publish_group_info,
  handle_group_info_publish,
}
use lockframe.Server.Driver.Logs.{Steady, unmoved}

-- An outcome that may be a panic.
abbrev pub MaySteady :
    {S : Type 0} (st : Storage S) (log : S → ℕ → List Frame)
    → KeepsLogs st log
    → ServerDriver S
    → Option (ServerDriver S × Actions)
    → Type 0
MaySteady st log keeps d none = Unit {0}
MaySteady st log keeps d (some (d', actions)) = Steady st log keeps d d'

module _ {S : Type 0} (st : Storage S) (log : S → ℕ → List Frame) (keeps : KeepsLogs st log)
    (cbor : Cbor) (to_string : ErrorText → Text) where
  sync_looked_up-MaySteady :
      (d : ServerDriver S) (session room now : ℕ) (r : Option (Result RoomError RoomAction))
      → AnswersOnly r
      → MaySteady st log keeps d (sync_looked_up cbor to_string st d session room now r)
  unfolding sync_looked_up sync_result process_room_action
  sync_looked_up-MaySteady d session room now none h = tt
  sync_looked_up-MaySteady d session room now (some (err e)) h = unmoved st log keeps d
  sync_looked_up-MaySteady d session room now
        (some (ok (RoomManager.send_sync_response id r frames more at))) h =
      unmoved st log keeps d
  sync_looked_up-MaySteady d session room now (some (ok _)) h = elim h [ ]

  sync_requested-MaySteady :
      (d : ServerDriver S) (session room now : ℕ) (r : Result ServerError SyncRequest)
      → MaySteady st log keeps d (sync_requested cbor to_string st d session room now r)
  unfolding sync_requested sync_result
  sync_requested-MaySteady d session room now (err e) = unmoved st log keeps d
  sync_requested-MaySteady d session room now (ok request) =
      sync_looked_up-MaySteady d session room now _ (
        handle_sync_request-AnswersOnly st d.room_manager room session request.from_log_index
          request.limit now d.storage)

  pub handle_sync-MaySteady :
      (d : ServerDriver S) (session : ℕ) (frame : Frame) (now : ℕ)
      → MaySteady st log keeps d (handle_sync cbor to_string st d session frame now)
  unfolding handle_sync
  handle_sync-MaySteady d session frame now =
      sync_requested-MaySteady d session (Header.room_id frame.header) now _

  stored_package-MaySteady :
      (d : ServerDriver S) (user now : ℕ) (o : Option (KeyPackageRegistry × StoreResult))
      → MaySteady st log keeps d (stored_package cbor to_string d user now o)
  unfolding stored_package
  stored_package-MaySteady d user now none = tt
  stored_package-MaySteady d user now (some (packages, evicted)) = record {
    sequencer = refl;
    logs = λ r. refl;
  }
  stored_package-MaySteady d user now (some (packages, _)) = record {
    sequencer = refl;
    logs = λ r. refl;
  }

  publish-MaySteady :
      (d : ServerDriver S) (session user now : ℕ) (r : Result ProtocolError Payload)
      → MaySteady st log keeps d (publish cbor to_string d session user now r)
  unfolding publish
  publish-MaySteady d session user now (ok (Payload.key_package_publish request)) =
      stored_package-MaySteady d user now _
  publish-MaySteady d session user now (ok _) = unmoved st log keeps d
  publish-MaySteady d session user now (err e) = unmoved st log keeps d

  publish_as-MaySteady :
      (d : ServerDriver S) (session : ℕ) (frame : Frame) (now : ℕ) (known : Option SessionInfo)
      → MaySteady st log keeps d (publish_as cbor to_string d session frame now known)
  unfolding publish_as
  publish_as-MaySteady d session frame now none = unmoved st log keeps d
  publish_as-MaySteady d session frame now (some known) = elim (Option-cases known.user_id) [
    | inl e ↦ rw e (unmoved st log keeps d)
    | inr (user, e) ↦ rw e (publish-MaySteady d session user now _)
  ]

  pub handle_key_package_publish-MaySteady :
      (d : ServerDriver S) (session : ℕ) (frame : Frame) (now : ℕ)
      → MaySteady st log keeps d (handle_key_package_publish cbor to_string d session frame now)
  unfolding handle_key_package_publish
  handle_key_package_publish-MaySteady d session frame now =
      publish_as-MaySteady d session frame now _

  fetch-Steady :
      (d : ServerDriver S) (session now : ℕ) (r : Result ProtocolError Payload)
      → Steady st log keeps d (fetch cbor to_string d session now r).0
  unfolding fetch
  fetch-Steady d session now (ok (Payload.key_package_fetch request)) = record {
    sequencer = refl;
    logs = λ r. refl;
  }
  fetch-Steady d session now (ok _) = unmoved st log keeps d
  fetch-Steady d session now (err e) = unmoved st log keeps d

  pub handle_key_package_fetch-Steady :
      (d : ServerDriver S) (session : ℕ) (frame : Frame) (now : ℕ)
      → Steady st log keeps d (handle_key_package_fetch cbor to_string d session frame now).0
  unfolding handle_key_package_fetch
  handle_key_package_fetch-Steady d session frame now = fetch-Steady d session now _

  publish_group_info-Steady :
      (d : ServerDriver S) (session now : ℕ) (r : Result ProtocolError Payload)
      → Steady st log keeps d (publish_group_info cbor to_string st d session now r).0
  unfolding publish_group_info
  publish_group_info-Steady d session now (ok (Payload.group_info given)) = record {
    sequencer = refl;
    logs = λ r. keeps.informed d.storage given.room_id given.epoch r given.group_info_bytes;
  }
  publish_group_info-Steady d session now (ok _) = unmoved st log keeps d
  publish_group_info-Steady d session now (err e) = unmoved st log keeps d

  pub handle_group_info_publish-Steady :
      (d : ServerDriver S) (session : ℕ) (frame : Frame) (now : ℕ)
      → Steady st log keeps d (handle_group_info_publish cbor to_string st d session frame now).0
  unfolding handle_group_info_publish
  handle_group_info_publish-Steady d session frame now = publish_group_info-Steady d session now _
