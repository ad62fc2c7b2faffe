-- ===== src/App/Bridge.antt =====
-- crates/lockframe-app/src/bridge.rs: the application's actions become events of the client, and the client's
-- actions events of the application and frames to send. `describe` is `ClientError::to_string`; `none`
-- is a panic of the client.
pub mod Depth
use lockframe.Common.{
  ℕ, zero, suc, List, [], ◌∷◌, ◌++◌, Bool, true, false, Option, none, some, if◌then◌else◌, Result,
  ok, err,
}
use lockframe.Proto.Errors.{ProtocolError}
use lockframe.Proto.Opcode.{Opcode}
use lockframe.Proto.Header
use lockframe.Proto.Header.{set_room_id}
use lockframe.Proto.Frame.{Frame}
use lockframe.Proto.Payload
use lockframe.Proto.Payload.{into_frame}
use lockframe.Proto.Payload.Types.{Text}
use lockframe.Proto.Payload.Coder.{Cbor}
use lockframe.Core.Validator.{Ed25519}
use lockframe.Core.Mls.{OpenMls}
use lockframe.Crypto.Ratchet.{Key}
use lockframe.Crypto.Encryption.{Aead}
use lockframe.Client.Types.{
  Client, ClientAction, ClientEvent, ClientError, Actions, Outcome, Reading,
}
use lockframe.Client.Types
use lockframe.Client.Frames
use lockframe.Client.Rooms
use lockframe.App.State.{
  AppAction, AppEvent, render, quit, publish_key_package, connect, create_room, join_room,
  leave_room, send_message, add_member, room_joined, room_left, message_received, member_added,
  error,
}

pub record Bridge (G P : Type 0) : Type 0 where
  pub client : Client G P
  pub outgoing : List Frame

abbrev pub Answer : Type 0 → Type 0 → Type 0
Answer G P = Option (Bridge G P × List AppEvent)

-- A frame that was made waits to be sent; a failure is dropped.
abbrev sent : List Frame → Result ProtocolError Frame → List Frame
sent outgoing (ok frame) = outgoing ++ frame ∷ []
sent outgoing (err e) = outgoing

abbrev in_room : ℕ → Result ProtocolError Frame → Result ProtocolError Frame
in_room room_id (ok frame) = ok (record frame { header = set_room_id frame.header room_id })
in_room room_id (err e) = err e

unfoldable pub is_error : AppEvent → Bool
is_error (error message) = true
is_error _ = false

unfoldable pub any_error : List AppEvent → Bool
any_error [] = false
any_error (e ∷ events) = if is_error e then true else any_error events

module _ {G P : Type 0} (mls : OpenMls G P) (expand : List ℕ → List ℕ → ℕ → List ℕ)
    (mac : Key → List ℕ → Key) (aead : Aead) (cbor : Cbor) (ed : Ed25519)
    (describe : ClientError → Text) where
  unfoldable pub new : ℕ → Bridge G P
  new sender_id = record { client = Rooms.new sender_id; outgoing = [] }

  handled : Bridge G P → ClientEvent → Reading → Option (Outcome G P)
  handled b event env = Frames.handle mls expand mac aead cbor ed b.client event env

  sync_request : ℕ → ℕ → Result ProtocolError Frame
  sync_request from_log_index limit =
      into_frame cbor
        (Payload.sync_request (record { from_log_index = from_log_index; limit = limit }))
        (Header.new Opcode.sync_request)

  -- A key package was used up: another is published, and the actions of that go `deeper`.
  republished : (Bridge G P → Actions → Answer G P) → Bridge G P → Option (Outcome G P) → Answer G P
  republished deeper b none = none
  republished deeper b (some (c, ok actions)) = deeper (record b { client = c }) actions
  republished deeper b (some (c, err e)) = some (record b { client = c }, [])

  process_client_action :
      (Bridge G P → Actions → Answer G P) → Reading → Bridge G P → ClientAction → Answer G P
  unfolding republished handled sync_request
  process_client_action deeper env b (Types.send frame) =
      some (record b { outgoing = b.outgoing ++ frame ∷ [] }, [])
  process_client_action deeper env b (Types.deliver_message room_id sender plaintext index at) =
      some (b, message_received room_id sender plaintext ∷ [])
  process_client_action deeper env b (Types.room_removed room_id reason) =
      some (b, room_left room_id ∷ [])
  process_client_action deeper env b (Types.persist_room snapshot) =
      some (b, room_joined snapshot.room_id ∷ [])
  process_client_action deeper env b (Types.request_sync room_id from_epoch to_epoch) =
      some (record b { outgoing = sent b.outgoing (sync_request from_epoch 100) }, [])
  process_client_action deeper env b (Types.member_added room_id user_id) =
      some (b, member_added room_id user_id ∷ [])
  process_client_action deeper env b (Types.key_package_needed reason) =
      republished deeper b (handled b Types.publish_key_package env)
  process_client_action deeper env b (Types.room_joined room_id at) = some (
    record b { outgoing = sent b.outgoing (in_room room_id (sync_request 0 1000)) },
    room_joined room_id ∷ [],
  )
  process_client_action deeper env b (Types.log_line message) = some (b, [])
  process_client_action deeper env b Types.key_package_published = some (b, [])

  -- The events of an action, and then those of the rest.
  after_action : Answer G P → (Bridge G P → Answer G P) → Answer G P
  after_action none rest = none
  after_action (some (b, first)) rest = elim (rest b) [
    | none ↦ none
    | some (b', more) ↦ some (b', first ++ more)
  ]

  process_each : (Bridge G P → Actions → Answer G P) → Reading → Bridge G P → Actions → Answer G P
  unfolding process_client_action after_action
  process_each deeper env b [] = some (b, [])
  process_each deeper env b (action ∷ actions) =
      after_action (process_client_action deeper env b action)
        (λ b'. process_each deeper env b' actions)

  -- The depth of the recursion is the fuel.
  unfoldable pub process_client_actions : ℕ → Reading → Bridge G P → Actions → Answer G P
  unfolding process_each
  process_client_actions zero env b actions = none
  process_client_actions (suc depth) env b actions =
      process_each (process_client_actions depth env) env b actions

  unfoldable pub handle_client_result : Reading → Bridge G P → Option (Outcome G P) → Answer G P
  handle_client_result env b none = none
  handle_client_result env b (some (c, ok actions)) =
      process_client_actions 2 env (record b { client = c }) actions
  handle_client_result env b (some (c, err e)) =
      some (record b { client = c }, error (describe e) ∷ [])

  -- The client's own message is shown, unless there was an error.
  shown : ℕ → List ℕ → Answer G P → Answer G P
  shown room_id content none = none
  shown room_id content (some (b, events)) = some (
    b,
    if any_error events
        then events
        else events ++ message_received room_id b.client.sender_id content ∷ [],
  )

  unfoldable pub process_app_action : Reading → Bridge G P → AppAction → Answer G P
  unfolding handled shown
  process_app_action env b (create_room room_id) =
      handle_client_result env b (handled b (Types.create_room room_id) env)
  process_app_action env b (send_message room_id content) =
      shown room_id content
        (handle_client_result env b (handled b (Types.send_message room_id content) env))
  process_app_action env b (leave_room room_id) =
      handle_client_result env b (handled b (Types.leave_room room_id) env)
  process_app_action env b (join_room room_id) =
      handle_client_result env b (handled b (Types.external_join room_id) env)
  process_app_action env b publish_key_package =
      handle_client_result env b (handled b Types.publish_key_package env)
  process_app_action env b (add_member room_id user_id) =
      handle_client_result env b (handled b (Types.fetch_and_add_member room_id user_id) env)
  process_app_action env b render = some (b, [])
  process_app_action env b quit = some (b, [])
  process_app_action env b (connect address) = some (b, [])

  unfoldable pub handle_frame : Reading → Bridge G P → Frame → Answer G P
  unfolding handled
  handle_frame env b frame = handle_client_result env b (handled b (Types.frame_received frame) env)

  unfoldable pub handle_tick : Reading → Bridge G P → ℕ → Answer G P
  unfolding handled
  handle_tick env b now = handle_client_result env b (handled b (Types.timer_tick now) env)

unfoldable pub take_outgoing : {G P : Type 0} → Bridge G P → Bridge G P × List Frame
take_outgoing b = (record b { outgoing = [] }, b.outgoing)
