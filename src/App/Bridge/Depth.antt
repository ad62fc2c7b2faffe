-- ===== src/App/Bridge/Depth.antt =====
-- The bridge answers whenever the client does (crates/lockframe-app/src/bridge.rs): republishing a key package
-- asks for no further one.
use lockframe.Common.{ℕ, ◌≡◌, refl, List, [], ◌∷◌, some, Result, ok, err, All}
use lockframe.Proto.Payload.Types.{Text}
use lockframe.Proto.Payload.Coder.{Cbor}
use lockframe.Core.Validator.{Ed25519}
use lockframe.Core.Mls.{OpenMls}
use lockframe.Crypto.Ratchet.{Key}
use lockframe.Crypto.Encryption.{Aead}
use lockframe.Client.Types.{
  Client, ClientAction, ClientEvent, ClientError, Actions, Outcome, Reading,
}
use lockframe.Client.Types
use lockframe.Client.Members.{handle_publish_key_package}
use lockframe.Client.Members.Publishing.{IsPlain, publish-IsPlain}
use lockframe.Client.Frames
use lockframe.Client.Frames.Fuel.{Returns}
use lockframe.App.Bridge.{
  Bridge, Answer, handled, republished, process_client_action, process_each, after_action,
  process_client_actions, handle_client_result,
}

module _ {G P : Type 0} (mls : OpenMls G P) (expand : List ℕ → List ℕ → ℕ → List ℕ)
    (mac : Key → List ℕ → Key) (aead : Aead) (cbor : Cbor) (ed : Ed25519)
    (describe : ClientError → Text) where
  Action-Returns : (Bridge G P → Actions → Answer G P) → Reading → ClientAction → Type 0
  Action-Returns deeper env a =
      (b : Bridge G P)
      → Returns (process_client_action mls expand mac aead cbor ed describe deeper env b a)

  each-Returns :
      (deeper : Bridge G P → Actions → Answer G P) (env : Reading) (b : Bridge G P)
      (actions : Actions)
      → All (Action-Returns deeper env) actions
      → Returns (process_each mls expand mac aead cbor ed describe deeper env b actions)
  unfolding process_each after_action Action-Returns
  each-Returns deeper env b [] p = (_, refl)
  each-Returns deeper env b (a ∷ actions) (one, rest) =
      let (first, e) = one b in
      let (more, e') = each-Returns deeper env first.0 actions rest in
      rw (e, process_each, after_action, e') (_, refl)

  plain-Returns :
      (deeper : Bridge G P → Actions → Answer G P) (env : Reading) (a : ClientAction)
      → IsPlain a
      → Action-Returns deeper env a
  unfolding process_client_action Action-Returns
  plain-Returns deeper env (Types.send frame) p b = (_, refl)
  plain-Returns deeper env (Types.deliver_message r s text i t) p b = (_, refl)
  plain-Returns deeper env (Types.request_sync r i j) p b = (_, refl)
  plain-Returns deeper env (Types.persist_room snapshot) p b = (_, refl)
  plain-Returns deeper env (Types.room_removed r reason) p b = (_, refl)
  plain-Returns deeper env (Types.log_line message) p b = (_, refl)
  plain-Returns deeper env (Types.member_added r u) p b = (_, refl)
  plain-Returns deeper env (Types.room_joined r t) p b = (_, refl)
  plain-Returns deeper env Types.key_package_published p b = (_, refl)
  plain-Returns deeper env (Types.key_package_needed reason) p b = elim p [ ]

  plain-each :
      (deeper : Bridge G P → Actions → Answer G P) (env : Reading) (actions : Actions)
      → All IsPlain actions
      → All (Action-Returns deeper env) actions
  plain-each deeper env [] p = tt
  plain-each deeper env (a ∷ actions) (p, ps) =
      (plain-Returns deeper env a p, plain-each deeper env actions ps)

  shallow-Returns :
      (env : Reading) (b : Bridge G P) (actions : Actions)
      → All IsPlain actions
      → Returns (process_client_actions mls expand mac aead cbor ed describe 1 env b actions)
  unfolding process_client_actions
  shallow-Returns env b actions p =
      each-Returns (process_client_actions mls expand mac aead cbor ed describe 0 env) env b actions
        (plain-each _ env actions p)

  republished-Returns :
      (env : Reading) (b : Bridge G P) (c : Client G P) (r : Result ClientError Actions)
      → ((actions : Actions) → r ≡ ok actions → All IsPlain actions)
      → Returns (
          republished mls expand mac aead cbor ed describe
            (process_client_actions mls expand mac aead cbor ed describe 1 env)
            b
            (some (c, r)))
  unfolding republished
  republished-Returns env b c (err e) p = (_, refl)
  republished-Returns env b c (ok actions) p =
      shallow-Returns env (record b { client = c }) actions (p actions refl)

  action-Returns :
      (env : Reading) (a : ClientAction)
      → Action-Returns (process_client_actions mls expand mac aead cbor ed describe 1 env) env a
  unfolding process_client_action Action-Returns handled Frames.handle
  action-Returns env (Types.key_package_needed reason) b =
      republished-Returns env b (handle_publish_key_package mls cbor b.client env).0
        (handle_publish_key_package mls cbor b.client env).1
        (λ actions h. publish-IsPlain mls cbor b.client env actions h)
  action-Returns env (Types.send frame) b = (_, refl)
  action-Returns env (Types.deliver_message r s text i t) b = (_, refl)
  action-Returns env (Types.request_sync r i j) b = (_, refl)
  action-Returns env (Types.persist_room snapshot) b = (_, refl)
  action-Returns env (Types.room_removed r reason) b = (_, refl)
  action-Returns env (Types.log_line message) b = (_, refl)
  action-Returns env (Types.member_added r u) b = (_, refl)
  action-Returns env (Types.room_joined r t) b = (_, refl)
  action-Returns env Types.key_package_published b = (_, refl)

  action-each :
      (env : Reading) (actions : Actions)
      → All
          (Action-Returns (process_client_actions mls expand mac aead cbor ed describe 1 env) env)
          actions
  action-each env [] = tt
  action-each env (a ∷ actions) = (action-Returns env a, action-each env actions)

  -- Whatever the client answers to an event, actions or an error, the bridge handles it to the end: the recursion for
  -- a key package that is published again goes one level down and no further.
  pub handle_client_result-Returns :
      (env : Reading) (b : Bridge G P) (outcome : Outcome G P)
      → Returns (handle_client_result mls expand mac aead cbor ed describe env b (some outcome))
  unfolding handle_client_result process_client_actions
  handle_client_result-Returns env b (c, err e) = (_, refl)
  handle_client_result-Returns env b (c, ok actions) =
      each-Returns (process_client_actions mls expand mac aead cbor ed describe 1 env) env
        (record b { client = c }) actions (action-each env actions)
