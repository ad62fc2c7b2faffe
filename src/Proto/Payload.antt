-- ===== src/Proto/Payload.antt =====
-- crates/lockframe-proto/src/payloads: the typed payloads, their CBOR coding by opcode, and their
-- conversion to and from frames. The coder itself (ciborium) is a parameter.
pub mod Types
pub mod Coder
pub mod Coding
pub mod Failures
use lockframe.Common.{
  ℕ, List, [], Option, none, some, ltb, if◌then◌else◌, Result, ok, err, ◌>>=◌, ok_or, length,
  to_be_bytes,
}
use lockframe.Proto.Errors.{ProtocolError, payload_too_large, cbor_encode, cbor_decode}
use lockframe.Proto.Opcode.{Opcode, to_u16}
use lockframe.Proto.Header.{FrameHeader, max_payload_size, opcode_enum}
use lockframe.Proto.Frame.{Frame}
use lockframe.Proto.Frame
use Types.{
  Hello, HelloReply, Goodbye, SyncRequest, SyncResponse, KeyPackageData, ProposalData, CommitData,
  WelcomeData, KeyPackagePublishRequest, KeyPackageFetchPayload, GroupInfoRequest, GroupInfoPayload,
  EncryptedMessage, Receipt, Reaction, Redact, Ban, Kick, ErrorPayload,
}
use Coder.{Codec, Cbor}

pub data Payload : Type 0 where
  hello : Hello → Payload
  hello_reply : HelloReply → Payload
  goodbye : Goodbye → Payload
  ping : Payload
  pong : Payload
  sync_request : SyncRequest → Payload
  sync_response : SyncResponse → Payload
  key_package : KeyPackageData → Payload
  proposal : ProposalData → Payload
  commit : CommitData → Payload
  welcome : WelcomeData → Payload
  key_package_publish : KeyPackagePublishRequest → Payload
  key_package_fetch : KeyPackageFetchPayload → Payload
  group_info_request : GroupInfoRequest → Payload
  group_info : GroupInfoPayload → Payload
  app_message : EncryptedMessage → Payload
  app_receipt : Receipt → Payload
  app_reaction : Reaction → Payload
  redact : Redact → Payload
  ban : Ban → Payload
  kick : Kick → Payload
  error : ErrorPayload → Payload

unfoldable pub opcode : Payload → Opcode
opcode (hello _) = Opcode.hello
opcode (hello_reply _) = Opcode.hello_reply
opcode (goodbye _) = Opcode.goodbye
opcode ping = Opcode.ping
opcode pong = Opcode.pong
opcode (sync_request _) = Opcode.sync_request
opcode (sync_response _) = Opcode.sync_response
opcode (key_package _) = Opcode.key_package
opcode (proposal _) = Opcode.proposal
opcode (commit _) = Opcode.commit
opcode (welcome _) = Opcode.welcome
opcode (key_package_publish _) = Opcode.key_package_publish
opcode (key_package_fetch _) = Opcode.key_package_fetch
opcode (group_info_request _) = Opcode.group_info_request
opcode (group_info _) = Opcode.group_info
opcode (app_message _) = Opcode.app_message
opcode (app_receipt _) = Opcode.app_receipt
opcode (app_reaction _) = Opcode.app_reaction
opcode (redact _) = Opcode.redact
opcode (ban _) = Opcode.ban
opcode (kick _) = Opcode.kick
opcode (error _) = Opcode.error

written : Option (List ℕ) → Result ProtocolError (List ℕ)
written bytes = ok_or bytes cbor_encode

read_as : {T : Type 0} → (T → Payload) → Option T → Result ProtocolError Payload
read_as variant none = err cbor_decode
read_as variant (some x) = ok (variant x)

module _ (cbor : Cbor) where
  -- The struct alone is written, with no tag of the variant.
  unfoldable pub encode : Payload → Result ProtocolError (List ℕ)
  unfolding written
  encode (hello inner) = written (cbor.hello.into_writer inner)
  encode (hello_reply inner) = written (cbor.hello_reply.into_writer inner)
  encode (goodbye inner) = written (cbor.goodbye.into_writer inner)
  encode ping = ok []
  encode pong = ok []
  encode (sync_request inner) = written (cbor.sync_request.into_writer inner)
  encode (sync_response inner) = written (cbor.sync_response.into_writer inner)
  encode (key_package inner) = written (cbor.key_package.into_writer inner)
  encode (proposal inner) = written (cbor.proposal.into_writer inner)
  encode (commit inner) = written (cbor.commit.into_writer inner)
  encode (welcome inner) = written (cbor.welcome.into_writer inner)
  encode (key_package_publish inner) = written (cbor.key_package_publish.into_writer inner)
  encode (key_package_fetch inner) = written (cbor.key_package_fetch.into_writer inner)
  encode (group_info_request inner) = written (cbor.group_info_request.into_writer inner)
  encode (group_info inner) = written (cbor.group_info.into_writer inner)
  encode (app_message inner) = written (cbor.app_message.into_writer inner)
  encode (app_receipt inner) = written (cbor.app_receipt.into_writer inner)
  encode (app_reaction inner) = written (cbor.app_reaction.into_writer inner)
  encode (redact inner) = written (cbor.redact.into_writer inner)
  encode (ban inner) = written (cbor.ban.into_writer inner)
  encode (kick inner) = written (cbor.kick.into_writer inner)
  encode (error inner) = written (cbor.error.into_writer inner)

  -- The `match` on the opcode in `decode`.
  unfoldable pub decode_as : Opcode → List ℕ → Result ProtocolError Payload
  unfolding read_as
  decode_as Opcode.hello bytes = read_as hello (cbor.hello.from_reader bytes)
  decode_as Opcode.hello_reply bytes = read_as hello_reply (cbor.hello_reply.from_reader bytes)
  decode_as Opcode.goodbye bytes = read_as goodbye (cbor.goodbye.from_reader bytes)
  decode_as Opcode.ping bytes = ok ping
  decode_as Opcode.pong bytes = ok pong
  decode_as Opcode.sync_request bytes = read_as sync_request (cbor.sync_request.from_reader bytes)
  decode_as Opcode.sync_response bytes =
      read_as sync_response (cbor.sync_response.from_reader bytes)
  decode_as Opcode.key_package bytes = read_as key_package (cbor.key_package.from_reader bytes)
  decode_as Opcode.proposal bytes = read_as proposal (cbor.proposal.from_reader bytes)
  decode_as Opcode.commit bytes = read_as commit (cbor.commit.from_reader bytes)
  decode_as Opcode.welcome bytes = read_as welcome (cbor.welcome.from_reader bytes)
  decode_as Opcode.key_package_publish bytes =
      read_as key_package_publish (cbor.key_package_publish.from_reader bytes)
  decode_as Opcode.key_package_fetch bytes =
      read_as key_package_fetch (cbor.key_package_fetch.from_reader bytes)
  decode_as Opcode.group_info_request bytes =
      read_as group_info_request (cbor.group_info_request.from_reader bytes)
  decode_as Opcode.group_info bytes = read_as group_info (cbor.group_info.from_reader bytes)
  decode_as Opcode.app_message bytes = read_as app_message (cbor.app_message.from_reader bytes)
  decode_as Opcode.app_receipt bytes = read_as app_receipt (cbor.app_receipt.from_reader bytes)
  decode_as Opcode.app_reaction bytes = read_as app_reaction (cbor.app_reaction.from_reader bytes)
  decode_as Opcode.redact bytes = read_as redact (cbor.redact.from_reader bytes)
  decode_as Opcode.ban bytes = read_as ban (cbor.ban.from_reader bytes)
  decode_as Opcode.kick bytes = read_as kick (cbor.kick.from_reader bytes)
  decode_as Opcode.error bytes = read_as error (cbor.error.from_reader bytes)
  decode_as _ bytes = err cbor_decode

  unfoldable pub decode : Opcode → List ℕ → Result ProtocolError Payload
  unfolding decode_as
  decode code bytes =
      if ltb max_payload_size (length bytes)
      then err (payload_too_large (length bytes) max_payload_size)
      else decode_as code bytes

  -- The frame takes its opcode from the payload.
  unfoldable pub into_frame : Payload → FrameHeader → Result ProtocolError Frame
  into_frame payload header = do
    buf ← encode payload
    ok (Frame.new (record header { opcode = to_be_bytes 2 (to_u16 (opcode payload)) }) buf)

  unfoldable pub from_frame : Frame → Result ProtocolError Payload
  from_frame frame = do
    code ← ok_or (opcode_enum frame.header) cbor_decode
    decode code frame.payload
