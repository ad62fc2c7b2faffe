-- ===== src/Examples/Coder.antt =====
-- A coder for the payloads of the handshake, which round-trips
-- (crates/lockframe-proto/src/payloads).
use lockframe.Common.{ℕ, ◌≡◌, List, [], ◌∷◌, Option, none, some, arith}
use lockframe.Proto.Payload.Types.{Text, Hello, HelloReply}
use lockframe.Proto.Payload.Coder.{Codec, Cbor, RoundTrips, IsLossless}

-- A coder that writes greetings with no options, and nothing else.
abbrev pub silent : {T : Type 0} → Codec T
silent = record { into_writer = λ x. none; from_reader = λ bytes. none }

silent-RoundTrips : {T : Type 0} → RoundTrips (silent {T = T})
silent-RoundTrips x bytes h = cc h

unfoldable pub write_hello : ℕ → List Text → Option ℕ → Option (List ℕ) → Option (List ℕ)
write_hello version [] none none = some (version ∷ [])
write_hello version _ _ _ = none

unfoldable pub read_hello : List ℕ → Option Hello
read_hello (version ∷ []) =
    some (record { version = version; capabilities = []; sender_id = none; auth_token = none })
read_hello _ = none

abbrev hello_codec : Codec Hello
hello_codec = record {
  into_writer = λ x. write_hello x.version x.capabilities x.sender_id x.auth_token;
  from_reader = read_hello;
}

hello-RoundTrips :
    (version : ℕ) (capabilities : List Text) (sender_id : Option ℕ) (auth_token : Option (List ℕ))
    (bytes : List ℕ)
    → write_hello version capabilities sender_id auth_token ≡ some bytes
    → read_hello bytes
      ≡ some (record {
        version = version;
        capabilities = capabilities;
        sender_id = sender_id;
        auth_token = auth_token;
      })
unfolding write_hello read_hello
hello-RoundTrips version [] none none bytes h = ground (arith, h)
hello-RoundTrips version [] none (some x) bytes h = cc h
hello-RoundTrips version [] (some x) a bytes h = cc h
hello-RoundTrips version (c ∷ cs) s a bytes h = cc h

unfoldable pub write_reply : ℕ → List Text → Option (List ℕ) → Option (List ℕ)
write_reply session_id [] none = some (session_id ∷ [])
write_reply session_id _ _ = none

unfoldable pub read_reply : List ℕ → Option HelloReply
read_reply (session_id ∷ []) =
    some (record { session_id = session_id; capabilities = []; challenge = none })
read_reply _ = none

abbrev reply_codec : Codec HelloReply
reply_codec = record {
  into_writer = λ x. write_reply x.session_id x.capabilities x.challenge;
  from_reader = read_reply;
}

reply-RoundTrips :
    (session_id : ℕ) (capabilities : List Text) (challenge : Option (List ℕ)) (bytes : List ℕ)
    → write_reply session_id capabilities challenge ≡ some bytes
    → read_reply bytes
      ≡ some
          (record { session_id = session_id; capabilities = capabilities; challenge = challenge })
unfolding write_reply read_reply
reply-RoundTrips session_id [] none bytes h = ground (arith, h)
reply-RoundTrips session_id [] (some x) bytes h = cc h
reply-RoundTrips session_id (c ∷ cs) x bytes h = cc h

abbrev pub cbor : Cbor
cbor = record {
  hello = hello_codec;
  hello_reply = reply_codec;
  goodbye = silent;
  sync_request = silent;
  sync_response = silent;
  key_package = silent;
  proposal = silent;
  commit = silent;
  welcome = silent;
  key_package_publish = silent;
  key_package_fetch = silent;
  group_info_request = silent;
  group_info = silent;
  app_message = silent;
  app_receipt = silent;
  app_reaction = silent;
  redact = silent;
  ban = silent;
  kick = silent;
  error = silent;
}

pub lossless : IsLossless cbor
lossless = record {
  hello = λ x bytes h. hello-RoundTrips x.version x.capabilities x.sender_id x.auth_token bytes h;
  hello_reply = λ x bytes h. reply-RoundTrips x.session_id x.capabilities x.challenge bytes h;
  goodbye = silent-RoundTrips;
  sync_request = silent-RoundTrips;
  sync_response = silent-RoundTrips;
  key_package = silent-RoundTrips;
  proposal = silent-RoundTrips;
  commit = silent-RoundTrips;
  welcome = silent-RoundTrips;
  key_package_publish = silent-RoundTrips;
  key_package_fetch = silent-RoundTrips;
  group_info_request = silent-RoundTrips;
  group_info = silent-RoundTrips;
  app_message = silent-RoundTrips;
  app_receipt = silent-RoundTrips;
  app_reaction = silent-RoundTrips;
  redact = silent-RoundTrips;
  ban = silent-RoundTrips;
  kick = silent-RoundTrips;
  error = silent-RoundTrips;
}
