-- ===== src/Examples/Session.antt =====
-- Sessions (crates/lockframe-core/src/connection.rs) and payloads in frames.
use lockframe.Common.{
  ◌≡◌, ◌≢◌, ◌≤◌, ◌↔◌, ◌⊎◌, refl, List, [], ◌∷◌, none, some, ok, length, arith, is_some, true,
}
use lockframe.Proto.Opcode.{Opcode}
use lockframe.Proto.Header as Header
use lockframe.Proto.Header.{opcode_enum, max_payload_size}
use lockframe.Proto.Frame as Frame
use lockframe.Proto.Frame.{Frame}
use lockframe.Proto.Payload.{encode, into_frame, from_frame}
use lockframe.Proto.Payload.Coding.{from_frame-into_frame, framed}
use lockframe.Examples.Coder.{cbor, lossless, write_hello, write_reply}
use lockframe.Core.Connection.{
  Connection, init, pending, authenticated, closed, default_config, new, set_session_id, tick,
  send_frame, hello_payload, hello_reply_payload, send_hello, handle_frame,
}
use lockframe.Core.Connection.Lifecycle.{
  rank, Call, send_hello_at, tick_at, close_now, run, run-rank, run-new-identified,
  set_session_id_to, handle_frame_at, step,
}
use lockframe.Core.Connection.Authentication.Calls.{IsCause, step-IsCause}
use lockframe.Core.Connection.Heartbeat.{
  IsOverdue, tick-closed_iff, IsBeating, ticks, ticks-authenticated,
}
use lockframe.Core.Connection.Handshake.{hello_frame, reply_frame, handshake_agrees}

hello_encodes : encode cbor (hello_payload cbor) ≡ ok (1 ∷ [])
unfolding encode write_hello
hello_encodes = refl

reply_encodes : encode cbor (hello_reply_payload cbor 42) ≡ ok (42 ∷ [])
unfolding encode write_reply
reply_encodes = refl

abbrev client : Connection
client = new 0 default_config

abbrev server : Connection
server = set_session_id (new 0 default_config) 42

client_state : client.state ≡ init
unfolding new
client_state = refl

server_state : server.state ≡ init
unfolding new set_session_id
server_state = refl

server_session : server.session_id ≡ some 42
unfolding set_session_id
server_session = refl

handshake_agrees_example :
    let (client', sent) = send_hello cbor client 1 in
    let (server', answer) = handle_frame cbor server (hello_frame cbor (1 ∷ [])) 2 in
    let (client'', last) = handle_frame cbor client' (reply_frame cbor 42 (42 ∷ [])) 3 in
    (sent ≡ ok (send_frame (hello_frame cbor (1 ∷ [])) ∷ []))
    × (answer ≡ ok (send_frame (reply_frame cbor 42 (42 ∷ [])) ∷ []))
    × (last ≡ ok [])
    × (server'.state ≡ authenticated)
    × (client''.state ≡ authenticated)
    × (server'.session_id ≡ some 42)
    × (client''.session_id ≡ some 42)
handshake_agrees_example =
    handshake_agrees cbor lossless client server 1 2 3 42 (1 ∷ []) (42 ∷ []) client_state
      server_state server_session hello_encodes (omega arith) reply_encodes (omega arith)

abbrev greeting : Frame
greeting = framed (hello_payload cbor) (Header.new Opcode.ping) (1 ∷ [])

hello_made : into_frame cbor (hello_payload cbor) (Header.new Opcode.ping) ≡ ok greeting
unfolding into_frame framed encode write_hello
hello_made = refl

greeting_fits : length greeting.payload ≤ max_payload_size
unfolding framed Frame.new
greeting_fits = omega arith

from_frame-into_frame_example : from_frame cbor greeting ≡ ok (hello_payload cbor)
from_frame-into_frame_example =
    from_frame-into_frame cbor lossless (hello_payload cbor) (Header.new Opcode.ping) greeting
      hello_made greeting_fits

-- The server, given the client's `Hello`, is authenticated.
server_authenticated :
    (handle_frame cbor server (hello_frame cbor (1 ∷ [])) 2).0.state ≡ authenticated
server_authenticated =
    let (sent, answer, last, done, other, id, id') = handshake_agrees_example in done

server_fresh : server.state ≢ authenticated
unfolding new set_session_id
server_fresh e = cc e

abbrev hello_call : Call cbor
hello_call = handle_frame_at (hello_frame cbor (1 ∷ [])) 2

hello_authenticates : (step cbor server hello_call).state ≡ authenticated
unfolding step
hello_authenticates = server_authenticated

step-IsCause_example : IsCause cbor server hello_call (step cbor server hello_call)
step-IsCause_example = step-IsCause cbor server hello_call server_fresh hello_authenticates

run-rank_example :
    rank client.state ≤ rank (run cbor client (send_hello_at 1 ∷ close_now ∷ tick_at 90 ∷ [])).state
run-rank_example = run-rank cbor client (send_hello_at 1 ∷ close_now ∷ tick_at 90 ∷ [])

abbrev server_calls : List (Call cbor)
server_calls = set_session_id_to 42 ∷ handle_frame_at (hello_frame cbor (1 ∷ [])) 2 ∷ []

served : (run cbor (new 0 default_config) server_calls).state ≡ authenticated
unfolding run step
served = server_authenticated

run-new-identified_example :
    is_some (run cbor (new 0 default_config) server_calls).session_id ≡ true
run-new-identified_example = run-new-identified cbor 0 default_config server_calls served

abbrev waiting : Connection
waiting = record {
  state = pending;
  config = default_config;
  last_activity = 0;
  last_heartbeat = none;
  session_id = none;
  client_sender_id = none;
}

tick-closed_iff_example :
    ((tick waiting 31).0.state ≡ closed) ↔ ((waiting.state ≡ closed) ⊎ IsOverdue waiting 31)
tick-closed_iff_example = tick-closed_iff waiting 31

abbrev beating : Connection
beating = record {
  state = authenticated;
  config = default_config;
  last_activity = 100;
  last_heartbeat = some 100;
  session_id = some 42;
  client_sender_id = none;
}

beating-IsBeating : IsBeating beating 100
beating-IsBeating = record {
  state = refl;
  last = 100;
  sent = refl;
  active = omega arith;
  recent = omega arith;
}

ticks-authenticated_example : (ticks beating (110 ∷ 120 ∷ 140 ∷ [])).state ≡ authenticated
ticks-authenticated_example =
    ticks-authenticated beating 100 20 (110 ∷ 120 ∷ 140 ∷ []) beating-IsBeating
      (omega arith, (omega arith, (omega arith, tt))) (omega arith)
