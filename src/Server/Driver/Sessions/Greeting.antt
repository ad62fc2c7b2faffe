-- ===== src/Server/Driver/Sessions/Greeting.antt =====
-- What a Hello does to the server (crates/lockframe-server/src/driver.rs).
use lockframe.Common.{
  ℕ, ◌≡◌, refl, ap, ◌∙◌, List, [], ◌∷◌, none, some, true, ok, Option-cases, inl, inr, arith, ◌==◌,
  if◌then◌else◌, insert, lookup, contains_key, lookup-insert, ==_self,
}
use lockframe.Proto.Opcode.{Opcode}
use lockframe.Proto.Header.{opcode_enum}
use lockframe.Proto.Frame.{Frame}
use lockframe.Proto.Payload.Types.{Text, Hello}
use lockframe.Proto.Payload.Coder.{Cbor}
use lockframe.Proto.Payload.{encode, from_frame}
use lockframe.Proto.Payload
use lockframe.Core.Connection.{Connection, init, authenticated, hello_reply_payload}
use lockframe.Core.Connection.Handshake.{reply_frame}
use lockframe.Core.Connection.Greeting.{handle_frame-greets}
use lockframe.Server.Storage.{Storage}
use lockframe.Server.Registry.{session_id_for_user}
use lockframe.Server.Registry.Users.{user_of}
use lockframe.Server.Registry.Greeting.{update_session_info-finds}
use lockframe.Server.Driver.Types.{ServerDriver, ErrorText, frame_received, send_to_session}
use lockframe.Server.Driver.Sessions.{session_frame_done, identify, identify_as, or_else, of_action}
use lockframe.Server.Driver.Events.{process_event, handle_frame_received, handle_opcode}
use lockframe.Server.Driver.Invariant.{IsSound}

-- The user that a Hello on a session is from.
abbrev pub user_named : Hello → ℕ → ℕ
user_named hello s = elim hello.sender_id [ none ↦ s | some u ↦ u ]

module _ {S : Type 0} (st : Storage S) (cbor : Cbor) (to_string : ErrorText → Text) where
  -- The connection and the server after the Hello.
  abbrev heard : Connection → Hello → ℕ → Connection
  heard c hello now = record c {
    client_sender_id = hello.sender_id;
    state = authenticated;
    last_activity = now;
  }

  abbrev greeted : ServerDriver S → ℕ → Connection → Hello → ℕ → ServerDriver S
  greeted d s c hello now = record d {
    connections = insert s (heard c hello now) d.connections;
    registry = identify_as (some (user_named hello s)) s d.registry;
  }

  named-user :
      (hello : Hello) (s : ℕ) → or_else hello.sender_id (some s) ≡ some (user_named hello s)
  named-user hello s = elim (Option-cases hello.sender_id) [
    | inl e ↦ rw e refl
    | inr (u, e) ↦ rw e refl
  ]

  -- In a sound state, a session in the initial state has no user.
  no_user :
      (d : ServerDriver S) (s : ℕ) (c : Connection)
      → IsSound d
      → lookup s d.connections ≡ some c
      → c.state ≡ init
      → user_of s d.registry.sessions ≡ none
  no_user d s c sound here i = elim (Option-cases (user_of s d.registry.sessions)) [
    | inl e ↦ e
    | inr (u, e) ↦ absurd (ground (arith, sound.matched.greeted s u c e here, i))
  ]

  -- A Hello of version 1, on a connection in the initial state of a server whose state is sound,
  -- for a user who has no session: the client gets the HelloReply with its session's id, its connection is authenticated, and the
  -- server finds the session from then on by the user that the Hello named, or by the session's id if
  -- it named none; every other user keeps the session that it had.
  pub hello_identifies :
      (d : ServerDriver S) (s : ℕ) (c : Connection) (f : Frame) (hello : Hello) (reply : List ℕ)
      (now clock : ℕ)
      → IsSound d
      → lookup s d.connections ≡ some c
      → c.state ≡ init
      → opcode_enum f.header ≡ some Opcode.hello
      → from_frame cbor f ≡ ok (Payload.hello hello)
      → hello.version ≡ 1
      → encode cbor (hello_reply_payload cbor s) ≡ ok reply
      → session_id_for_user d.registry (user_named hello s) ≡ none
      → (d' : ServerDriver S) × (process_event cbor to_string st d (frame_received s f) now clock
          ≡ some (d', ok (send_to_session s (reply_frame cbor s reply) ∷ [])))
        × ((c' : Connection) × (lookup s d'.connections ≡ some c') × (c'.state ≡ authenticated))
        × ((v : ℕ)
            → session_id_for_user d'.registry v
              ≡ (if user_named hello s == v then some s else session_id_for_user d.registry v))
  unfolding process_event handle_frame_received handle_opcode session_frame_done identify
      identify_as of_action
  hello_identifies d s c f hello reply now clock sound here i code read version e free =
      let id = sound.matched.identified s c here in
      let named : or_else hello.sender_id c.session_id ≡ some (user_named hello s) =
        ap (or_else hello.sender_id) id ∙ named-user hello s in
      let known : contains_key s d.registry.sessions ≡ true =
        ground (arith, sound.matched.connected s, here) in
      (
        greeted d s c hello now,
        rw (here, code, handle_frame_received, handle_opcode)
            (ap (λ p. some (session_frame_done d s Opcode.hello p))
                (handle_frame-greets cbor c f hello reply s now i id code read version e)
              ∙ rw named refl),
        (
          heard c hello now,
          lookup-insert s s (heard c hello now) d.connections ∙ rw (==_self s) refl,
          refl,
        ),
        λ v.
            update_session_info-finds d.registry s (user_named hello s) v known
              (no_user d s c sound here i) free,
      )
