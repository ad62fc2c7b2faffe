-- ===== src/Server/Driver/Untouched.antt =====
-- What the handlers of the driver (crates/lockframe-server/src/driver.rs) leave alone: serving a
-- request, and carrying out the room manager's actions, touch neither connections nor sessions.
use lockframe.Common.{
  ℕ, ◌≡◌, refl, ◌∙◌, List, [], ◌∷◌, Bool-cases, inl, inr, Option, none, some, Result, ok, err,
}
use lockframe.Proto.Opcode.{is_welcome}
use lockframe.Proto.Header.{opcode_enum}
use lockframe.Proto.Payload.Types.{Text}
use lockframe.Proto.Payload.Coder.{Cbor}
use lockframe.Server.Storage.{Storage, StorageError, conflict}
use lockframe.Server.RoomManager.{
  RoomManager, RoomAction, RoomError, process_frame, handle_sync_request,
}
use lockframe.Server.RoomManager
use lockframe.Server.Driver.Types.{ServerDriver, ErrorText}
use lockframe.Server.Driver.Replies.{Actions, stored, process_room_action, process_room_actions}

pub record Untouched {S : Type 0} (d d' : ServerDriver S) : Type 0 where
  pub connections : d'.connections ≡ d.connections
  pub registry : d'.registry ≡ d.registry
  pub config : d'.config ≡ d.config

-- An outcome that may be a panic.
abbrev pub MayLeave : {S : Type 0} → ServerDriver S → Option (ServerDriver S × Actions) → Type 0
MayLeave d none = Unit {0}
MayLeave d (some (d', actions)) = Untouched d d'

pub same : {S : Type 0} (d : ServerDriver S) → Untouched d d
same d = record { connections = refl; registry = refl; config = refl }

pub Untouched-trans :
    {S : Type 0} {d d' d'' : ServerDriver S} → Untouched d d' → Untouched d' d'' → Untouched d d''
Untouched-trans u v = record {
  connections = v.connections ∙ u.connections;
  registry = v.registry ∙ u.registry;
  config = v.config ∙ u.config;
}

module _ (cbor : Cbor) (to_string : ErrorText → Text) where
  module _ {S : Type 0} (st : Storage S) where
    stored-Untouched :
        (d : ServerDriver S) (room now : ℕ) (p : S × Result StorageError (Unit {0}))
        → Untouched d (stored cbor to_string st d room now p).0
    unfolding stored
    stored-Untouched d room now (s, ok _) = record {
      connections = refl;
      registry = refl;
      config = refl;
    }
    stored-Untouched d room now (s, err (conflict expected got)) = record {
      connections = refl;
      registry = refl;
      config = refl;
    }
    stored-Untouched d room now (s, err _) = record {
      connections = refl;
      registry = refl;
      config = refl;
    }

    pub process_room_action-Untouched :
        (d : ServerDriver S) (action : RoomAction) (sender now : ℕ)
        → Untouched d (process_room_action cbor to_string st d action sender now).0
    unfolding process_room_action
    process_room_action-Untouched d (RoomManager.broadcast room frame exclude at) sender now =
        elim (Bool-cases (is_welcome (opcode_enum frame.header))) [
          | inl e ↦ rw e (same d)
          | inr e ↦ rw e (same d)
        ]
    process_room_action-Untouched d (RoomManager.persist_frame room i frame at) sender now =
        stored-Untouched d room now (st.store_frame d.storage room i frame)
    process_room_action-Untouched d (RoomManager.reject id reason at) sender now = same d
    process_room_action-Untouched d (RoomManager.send_sync_response id room frames more at) sender
          now =
        same d

    pub process_room_actions-Untouched :
        (d : ServerDriver S) (actions : List RoomAction) (sender now : ℕ)
        → Untouched d (process_room_actions cbor to_string st d actions sender now).0
    unfolding process_room_actions
    process_room_actions-Untouched d [] sender now = same d
    process_room_actions-Untouched d (action ∷ rest) sender now =
        Untouched-trans (process_room_action-Untouched d action sender now) (
          process_room_actions-Untouched
            (process_room_action cbor to_string st d action sender now).0 rest sender now)
