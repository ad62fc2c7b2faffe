-- ===== src/Proto/Payload/Coder.antt =====
-- The CBOR coder of the `ciborium` crate: what `into_writer` writes, or its failure, and what
-- `from_reader` reads, for each payload struct. Its documented behaviour is the round trip.
use lockframe.Common.{ℕ, ◌≡◌, List, Option, some}
use lockframe.Proto.Payload.Types.{
  Hello, HelloReply, Goodbye, SyncRequest, SyncResponse, KeyPackageData, ProposalData, CommitData,
  WelcomeData, KeyPackagePublishRequest, KeyPackageFetchPayload, GroupInfoRequest, GroupInfoPayload,
  EncryptedMessage, Receipt, Reaction, Redact, Ban, Kick, ErrorPayload,
}

pub record Codec (T : Type 0) : Type 0 where
  pub into_writer : T → Option (List ℕ)
  pub from_reader : List ℕ → Option T

abbrev pub RoundTrips : {T : Type 0} → Codec T → Type 0
RoundTrips {T} c =
    (x : T) (bytes : List ℕ) → c.into_writer x ≡ some bytes → c.from_reader bytes ≡ some x

pub record Cbor : Type 0 where
  pub hello : Codec Hello
  pub hello_reply : Codec HelloReply
  pub goodbye : Codec Goodbye
  pub sync_request : Codec SyncRequest
  pub sync_response : Codec SyncResponse
  pub key_package : Codec KeyPackageData
  pub proposal : Codec ProposalData
  pub commit : Codec CommitData
  pub welcome : Codec WelcomeData
  pub key_package_publish : Codec KeyPackagePublishRequest
  pub key_package_fetch : Codec KeyPackageFetchPayload
  pub group_info_request : Codec GroupInfoRequest
  pub group_info : Codec GroupInfoPayload
  pub app_message : Codec EncryptedMessage
  pub app_receipt : Codec Receipt
  pub app_reaction : Codec Reaction
  pub redact : Codec Redact
  pub ban : Codec Ban
  pub kick : Codec Kick
  pub error : Codec ErrorPayload

-- What was written reads back as the same value, for every struct.
pub record IsLossless (cbor : Cbor) : Type 0 where
  pub hello : RoundTrips cbor.hello
  pub hello_reply : RoundTrips cbor.hello_reply
  pub goodbye : RoundTrips cbor.goodbye
  pub sync_request : RoundTrips cbor.sync_request
  pub sync_response : RoundTrips cbor.sync_response
  pub key_package : RoundTrips cbor.key_package
  pub proposal : RoundTrips cbor.proposal
  pub commit : RoundTrips cbor.commit
  pub welcome : RoundTrips cbor.welcome
  pub key_package_publish : RoundTrips cbor.key_package_publish
  pub key_package_fetch : RoundTrips cbor.key_package_fetch
  pub group_info_request : RoundTrips cbor.group_info_request
  pub group_info : RoundTrips cbor.group_info
  pub app_message : RoundTrips cbor.app_message
  pub app_receipt : RoundTrips cbor.app_receipt
  pub app_reaction : RoundTrips cbor.app_reaction
  pub redact : RoundTrips cbor.redact
  pub ban : RoundTrips cbor.ban
  pub kick : RoundTrips cbor.kick
  pub error : RoundTrips cbor.error
