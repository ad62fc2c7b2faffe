-- ===== src/Client/Members/Publishing.antt =====
-- Publishing a key package (crates/lockframe-client/src/client.rs) asks for no other one.
use lockframe.Common.{ℕ, ◌≡◌, subst, List, [], ◌∷◌, Result, ok, err, ◌>>=◌, All}
use lockframe.Proto.Frame.{Frame}
use lockframe.Proto.Payload.Coder.{Cbor}
use lockframe.Core.Mls.{OpenMls, MlsError}
use lockframe.Core.Mls.Membership.{generate_key_package}
use lockframe.Client.Types.{Client, ClientAction, ClientError, Actions, Outcome, Reading}
use lockframe.Client.Types
use lockframe.Client.Members.{published, handle_publish_key_package}

-- The action asks for no key package.
abbrev pub IsPlain : ClientAction → Type 0
IsPlain (Types.key_package_needed reason) = ⊥
IsPlain _ = Unit {0}

answered-IsPlain :
    (r : Result ClientError Frame) (actions : Actions)
    → (r >>= λ frame. ok (
        Types.send frame
        ∷ Types.log_line Types.published_key_package
        ∷ Types.key_package_published
        ∷ []))
      ≡ ok actions
    → All IsPlain actions
answered-IsPlain (err e) actions h = cc
answered-IsPlain (ok frame) actions h =
    let e : Types.send frame
          ∷ Types.log_line Types.published_key_package
          ∷ Types.key_package_published
          ∷ []
        ≡ actions =
      cc in
    subst (All IsPlain) e (tt, (tt, (tt, tt)))

published-IsPlain :
    {G P : Type 0} (mls : OpenMls G P) (cbor : Cbor) (c : Client G P)
    (r : Result MlsError (List ℕ × List ℕ × P)) (actions : Actions)
    → (published mls cbor c r).1 ≡ ok actions
    → All IsPlain actions
unfolding published
published-IsPlain mls cbor c (err e) actions h = cc h
published-IsPlain mls cbor c (ok (bytes, hash_ref, state)) actions h = answered-IsPlain _ actions h

-- The actions of a client that publishes a key package contain no request for one.
pub publish-IsPlain :
    {G P : Type 0} (mls : OpenMls G P) (cbor : Cbor) (c : Client G P) (env : Reading)
    (actions : Actions)
    → (handle_publish_key_package mls cbor c env).1 ≡ ok actions
    → All IsPlain actions
unfolding handle_publish_key_package
publish-IsPlain mls cbor c env actions h =
    published-IsPlain mls cbor c (generate_key_package mls env.seed c.sender_id) actions h
