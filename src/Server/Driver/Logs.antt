-- ===== src/Server/Driver/Logs.antt =====
-- The logs of the rooms through the driver (crates/lockframe-server/src/driver.rs): routing a frame is
-- submitting it to the room manager and the store, and the rest leaves the logs alone.
use lockframe.Common.{
  ℕ, ◌≤◌, ◌<◌, ◌≡◌, refl, sym, ap, subst, ◌∙◌, List, [], ◌∷◌, ◌++◌, some, Bool-cases, inl, inr,
  arith, length, lookup, Result, ok, err,
}
use mathlib.Core.List.{append-nil}
use lockframe.Proto.Opcode.{is_welcome}
use lockframe.Proto.Header.{opcode_enum}
use lockframe.Proto.Frame.{Frame}
use lockframe.Proto.Payload.Types.{Text}
use lockframe.Proto.Payload.Coder.{Cbor}
use lockframe.Server.Storage.{Storage, StorageError, conflict, KeepsLogs}
use lockframe.Server.Sequencer.{u64_max}
use lockframe.Server.RoomManager.{RoomManager, RoomAction, RoomError, process_frame}
use lockframe.Server.RoomManager
use lockframe.Server.RoomManager.Log.{on_stored, persist, persist_all, submit}
use lockframe.Server.RoomManager.Log.Step.{Effect, submit-Effect}
use lockframe.Server.RoomManager.Log.Order.{IsConsistent, Effect-IsConsistent, Effect-extends}
use lockframe.Server.Driver.Types.{ServerDriver, ErrorText}
use lockframe.Server.Driver.Replies.{stored, process_room_action, process_room_actions}

-- The parts of the driver that the order of frames rests on.
abbrev pub ordering : {S : Type 0} → ServerDriver S → RoomManager × S
ordering d = (d.room_manager, d.storage)

module _ (cbor : Cbor) (to_string : ErrorText → Text) {S : Type 0} (st : Storage S) where
  ordering-stored :
      (d : ServerDriver S) (room now : ℕ) (p : S × Result StorageError (Unit {0}))
      → ordering (stored cbor to_string st d room now p).0 ≡ on_stored st d.room_manager room p
  unfolding stored on_stored
  ordering-stored d room now (s, ok _) = refl
  ordering-stored d room now (s, err (conflict expected got)) = refl
  ordering-stored d room now (s, err _) = refl

  ordering-action :
      (d : ServerDriver S) (action : RoomAction) (sender now : ℕ)
      → ordering (process_room_action cbor to_string st d action sender now).0
        ≡ persist st d.room_manager d.storage action
  unfolding process_room_action persist
  ordering-action d (RoomManager.broadcast room frame exclude at) sender now =
      elim (Bool-cases (is_welcome (opcode_enum frame.header))) [
        | inl e ↦ rw e refl
        | inr e ↦ rw e refl
      ]
  ordering-action d (RoomManager.persist_frame room i frame at) sender now =
      ordering-stored d room now (st.store_frame d.storage room i frame)
  ordering-action d (RoomManager.reject id reason at) sender now = refl
  ordering-action d (RoomManager.send_sync_response id room frames more at) sender now = refl

  -- Carrying out actions is persisting what they say is to be persisted.
  pub ordering-actions :
      (d : ServerDriver S) (actions : List RoomAction) (sender now : ℕ)
      → ordering (process_room_actions cbor to_string st d actions sender now).0
        ≡ persist_all st d.room_manager d.storage actions
  unfolding process_room_actions persist_all
  ordering-actions d [] sender now = refl
  ordering-actions d (action ∷ rest) sender now =
      let d' = (process_room_action cbor to_string st d action sender now).0 in
      ordering-actions d' rest sender now
      ∙ ap (λ (p : RoomManager × S). persist_all st p.0 p.1 rest)
          (ordering-action d action sender now)

module _ {S : Type 0} (st : Storage S) (log : S → ℕ → List Frame) (keeps : KeepsLogs st log) where
  -- The order of the frames stands: the cached indices are current, and each frame of a log carries
  -- its place as its index.
  abbrev pub IsOrdered : ServerDriver S → Type 0
  IsOrdered d = IsConsistent st log keeps d.room_manager d.storage

  -- From one driver to another nothing happens to the logs.
  pub record Steady (d d' : ServerDriver S) : Type 0 where
    pub sequencer : d'.room_manager.sequencer ≡ d.room_manager.sequencer
    pub logs : (room : ℕ) → log d'.storage room ≡ log d.storage room

  -- Every log grows at its end, by one frame at most.
  pub record Advances (s : S) (d' : ServerDriver S) : Type 0 where
    pub ordered : IsOrdered d'
    pub grown :
        (room : ℕ)
        → (more : List Frame) × (log d'.storage room ≡ log s room ++ more) × (length more ≤ 1)

  abbrev pub HasRoom : ServerDriver S → Type 0
  HasRoom d = (room : ℕ) → length (log d.storage room) < u64_max

  pub unmoved : (d : ServerDriver S) → Steady d d
  unmoved d = record { sequencer = refl; logs = λ room. refl }

  pub Steady-trans : (d d' d'' : ServerDriver S) → Steady d d' → Steady d' d'' → Steady d d''
  Steady-trans d d' d'' u v = record {
    sequencer = v.sequencer ∙ u.sequencer;
    logs = λ room. v.logs room ∙ u.logs room;
  }

  pub Steady-IsOrdered : (d d' : ServerDriver S) → Steady d d' → IsOrdered d → IsOrdered d'
  Steady-IsOrdered d d' u i = record {
    current = λ room r e.
        rw (u.logs room)
          (i.current room r (subst (λ q. lookup room q.rooms ≡ some r) u.sequencer e));
    ordered = λ room k f e. i.ordered room k f (rw (u.logs room) at e);
  }

  pub Steady-Advances : (d d' : ServerDriver S) → Steady d d' → IsOrdered d → Advances d.storage d'
  Steady-Advances d d' u i = record {
    ordered = Steady-IsOrdered d d' u i;
    grown = λ room. ([], u.logs room ∙ sym (append-nil _), omega arith);
  }

  pub Steady-HasRoom : (d d' : ServerDriver S) → Steady d d' → HasRoom d → HasRoom d'
  Steady-HasRoom d d' u h room = rw (u.logs room) (h room)

  pub Advances-after :
      (d d' d'' : ServerDriver S) → Steady d d' → Advances d'.storage d'' → Advances d.storage d''
  Advances-after d d' d'' u a = record {
    ordered = a.ordered;
    grown = λ room.
        let (more, e, le) = a.grown room in (more, e ∙ ap (λ l. l ++ more) (u.logs room), le);
  }

  pub submit-Advances :
      (d d' : ServerDriver S) (f : Frame) (now : ℕ)
      → ordering d' ≡ submit st d.room_manager d.storage (f, now)
      → IsOrdered d
      → HasRoom d
      → Advances d.storage d'
  submit-Advances d d' f now e i short =
      let effect : Effect st log keeps d.room_manager d.storage f d'.room_manager d'.storage =
        subst (λ (p : RoomManager × S). Effect st log keeps d.room_manager d.storage f p.0 p.1)
          (sym e) (submit-Effect st log keeps d.room_manager d.storage f now i.current short) in
      record {
        ordered = Effect-IsConsistent st log keeps effect short i;
        grown = λ room. Effect-extends st log keeps effect room;
      }
