-- ===== src/Examples/Member.antt =====
-- A client in a room (crates/lockframe-client/src/client.rs): client 9 in room 7, with member 100. The group of
-- OpenMLS stands as its epoch.
use lockframe.Common.{
  ℕ, ◌+◌, ◌≡◌, ◌≤◌, ◌<◌, ◌⊎◌, refl, [], ◌∷◌, none, some, true, false, ok, err, All, arith, length,
  lookup, insert, List, subst, to_be_bytes, from_be_bytes, replicate, contains,
}
use lockframe.Proto.Opcode.{Opcode}
use lockframe.Proto.Header
use lockframe.Proto.Header.{set_room_id, set_sender_id, set_epoch}
use lockframe.Proto.Frame
use lockframe.Proto.Frame.{Frame}
use lockframe.Proto.Payload.Coder.{Cbor}
use lockframe.Proto.Payload.Types.{SyncResponse}
use lockframe.Core.Mls.{
  application, OpenMls, MlsGroup, crypto, library, staged_commit, extract_member_id,
  is_commit_timeout, listed, member_at,
}
use lockframe.Core.Mls.Commits.{process_message, clear_pending_commit}
use lockframe.Core.Mls.Membership
use lockframe.Core.GroupState
use lockframe.Core.Validator
use lockframe.Crypto.Encryption
use lockframe.Crypto.Ratchet
use lockframe.Client.SenderKeys
use lockframe.Client.SenderKeys.{seeded}
use lockframe.Client.Rooms.{initialize_sender_keys}
use lockframe.Core.Mls.Membership.{credential}
use lockframe.Crypto.Ratchet.{Key}
use lockframe.Crypto.Encryption.{Aead}
use lockframe.Client.SenderKeys.{SenderKeyStore, initialize_epoch}
use lockframe.Client.Types.{Client, RoomState, Reading, Actions, deliver_message}
use lockframe.Client.Messages.{handle_app_message, proto_to_crypto_encrypted}
use lockframe.Client.Messages.Delivery.{IsAuthentic, handle_app_message-IsAuthentic}
use lockframe.Client.Commits.{handle_commit}
use lockframe.Client.Commits.Rekeying.{HasKeyed, IsOldNews, handle_commit-rekeys}
use lockframe.Client.Members.{handle_tick, rooms_ticked}
use lockframe.Client.Members.Timeouts.{IsPatient, handle_tick-IsPatient}
use lockframe.Client.Frames.{handle_frame}
use lockframe.Client.Frames.Fuel.{ReadsWithin, Returns, handle_frame-Returns}
use lockframe.Examples.Coder
use lockframe.Examples.Keys.{mac, expand, aead}
use lockframe.Examples.Validation.{ed}

-- Every commit of another member moves the group on by an epoch.
abbrev pub mls : OpenMls ℕ ℕ
mls = record {
  create = λ seed identity. ok 0;
  epoch = λ g. g;
  own_leaf_index = λ g. 0;
  members = λ g.
      record { index = 0; identity = credential 9; signature_key = [] }
      ∷ record { index = 4; identity = credential 100; signature_key = replicate 32 1 }
      ∷ [];
  sign = λ g bytes. none;
  export_secret = λ g label context size. some (g ∷ []);
  tree_hash = λ g. replicate 32 0;
  export_group_info = λ g. ok (g ∷ []);
  pending_commit = λ g. false;
  clear_pending_commit = λ g. (g, ok tt);
  merge_pending_commit = λ g. (g + 1, ok tt);
  process_message = λ g bytes. (g, ok (credential 100, staged_commit []));
  merge_staged_commit = λ g staged. (g + 1, ok tt);
  is_active = λ g. true;
  create_message = λ g plaintext. (g, ok plaintext);
  key_package_identity = λ bytes. ok bytes;
  add_members = λ g packages. (g, err (crypto library));
  remove_members = λ g leaves. (g, err (crypto library));
  leave_group = λ g. (g, ok []);
  key_package = λ seed identity. err (crypto library);
  join = λ state bytes. ok state;
  join_external = λ seed identity bytes. err (crypto library);
}

-- A commit of the client waits since second 2.
abbrev group : MlsGroup ℕ
group = record {
  room_id = 7;
  member_id = 9;
  inner_group = 3;
  pending_commit = some (record { target_epoch = 4; sent_at = 2 });
}

abbrev room : RoomState ℕ
room = record {
  mls_group = group;
  sender_keys = initialize_epoch expand (3 ∷ []) 3 (0 ∷ 4 ∷ []);
  my_leaf_index = 0;
}

abbrev pub client : Client ℕ ℕ
client = record {
  sender_id = 9;
  rooms = (7, room) ∷ [];
  pending_joins = [];
  pending_adds = [];
  pending_external_joins = [];
}

client_in_room : lookup 7 client.rooms ≡ some room
unfolding lookup
client_in_room = refl

-- The coder of the handshake reads every byte string as one message.
abbrev pub cbor : Cbor
cbor = record Coder.cbor {
  app_message = record {
    into_writer = λ m. none;
    from_reader = λ bytes. some (record {
      epoch = 3;
      sender_index = 4;
      generation = 0;
      nonce = [];
      ciphertext = bytes;
      push_keys = none;
    });
  };
}

abbrev pub reading : Reading
reading = record { now = 40; seed = 0; random_bytes = [] }

abbrev commit_frame : Frame
commit_frame =
    Frame.new (set_epoch (set_sender_id (set_room_id (Header.new Opcode.commit) 7) 100) 3) (1 ∷ [])

-- A coder that reads every byte string as a sync response with itself as the one frame.
abbrev of_bytes : List ℕ → SyncResponse
of_bytes b = record { frames = b ∷ []; has_more = false; server_epoch = 0 }

abbrev nesting : Cbor
nesting = record Coder.cbor {
  sync_response = record { into_writer = λ r. none; from_reader = λ b. some (of_bytes b) };
}

nesting-ReadsWithin : ReadsWithin nesting
nesting-ReadsWithin bytes r h =
    let is : of_bytes bytes ≡ r = cc in
    subst (λ (r' : SyncResponse). All (λ b. length b ≤ length bytes) r'.frames) is (omega arith, tt)

-- A sync response whose frame is a sync response.
abbrev inner_frame : Frame
inner_frame = Frame.new (set_room_id (Header.new Opcode.sync_response) 7) []

abbrev outer_frame : Frame
outer_frame =
    Frame.new (set_room_id (Header.new Opcode.sync_response) 7) (Header.to_bytes inner_frame.header)

inner_decodes : Frame.decode outer_frame.payload ≡ ok inner_frame
unfolding Frame.decode Frame.read_payload Frame.new Header.from_bytes Header.to_bytes Header.new
    set_room_id to_be_bytes Header.check_header Header.ref_from_prefix from_be_bytes
    Header.payload_size
inner_decodes = refl

payload_short : length outer_frame.payload < 200
unfolding Frame.new Header.to_bytes Header.new set_room_id to_be_bytes
payload_short = omega arith

handle_frame-Returns_example :
    Returns (handle_frame mls expand mac aead nesting ed 200 reading client outer_frame)
handle_frame-Returns_example =
    handle_frame-Returns mls expand mac aead nesting ed nesting-ReadsWithin 200 reading client
      outer_frame payload_short

-- OpenMLS decrypts every payload to itself, of member 100.
abbrev chatty : OpenMls ℕ ℕ
chatty = record mls { process_message = λ g bytes. (g, ok (credential 100, application bytes)) }

-- A proposal that claims another sender and another epoch.
abbrev proposal_frame : Frame
proposal_frame =
    Frame.new (set_epoch (set_sender_id (set_room_id (Header.new Opcode.proposal) 7) 55) 1) (8 ∷ [])

commit_handled :
    (actions : Actions) × ((handle_commit mls expand cbor client 7 commit_frame).1 ≡ ok actions)
unfolding handle_commit lookup Header.sender_id from_be_bytes Frame.new set_epoch set_sender_id
    to_be_bytes process_message extract_member_id initialize_sender_keys Membership.export_secret
    Membership.export_state
commit_handled = (_, refl)

ticked : (actions : Actions) × ((handle_tick mls client 40).1 ≡ ok actions)
unfolding handle_tick rooms_ticked is_commit_timeout clear_pending_commit
ticked = (_, refl)

handle_tick-IsPatient_example : All (IsPatient mls 40) (handle_tick mls client 40).0.rooms
handle_tick-IsPatient_example = handle_tick-IsPatient mls 40 client ticked.0 ticked.1

handle_commit-rekeys_example :
    HasKeyed mls expand cbor (handle_commit mls expand cbor client 7 commit_frame).0 7
    ⊎ (IsOldNews mls expand cbor client room commit_frame
        × ((handle_commit mls expand cbor client 7 commit_frame).0 ≡ client))
handle_commit-rekeys_example =
    handle_commit-rekeys mls expand cbor client 7 commit_frame room commit_handled.0 client_in_room
      commit_handled.1

abbrev message_frame : Frame
message_frame =
    Frame.new (set_epoch (set_sender_id (set_room_id (Header.new Opcode.app_message) 7) 100) 3)
      (8 ∷ [])

message_delivered :
    (handle_app_message mls mac aead cbor ed client 7 message_frame).1
    ≡ ok (deliver_message 7 100 (8 ∷ []) 0 0 ∷ [])
unfolding handle_app_message Header.sender_id from_be_bytes Frame.new set_epoch set_sender_id
    to_be_bytes lookup Header.epoch Membership.epoch Membership.validate_frame
    Validator.validate_frame GroupState.is_member contains Membership.export_validation_state
    Membership.export_group_state GroupState.with_keys listed proto_to_crypto_encrypted
    SenderKeys.decrypt insert GroupState.member_key GroupState.new
    Membership.member_id_by_leaf_index extract_member_id member_at Validator.validate_signature
    Encryption.decrypt_message Ratchet.advance Ratchet.advance_to Ratchet.advance_while
    Ratchet.derive_message_key Ratchet.derive_next_chain_key Header.hlc_timestamp Header.log_index
    Header.signing_data Header.to_bytes initialize_epoch seeded Ratchet.new Header.new set_room_id
message_delivered = refl

handle_app_message-IsAuthentic_example :
    (room : RoomState ℕ) × (lookup 7 client.rooms ≡ some room)
    × IsAuthentic mls mac aead cbor ed client room message_frame 100 (8 ∷ [])
    × (◌≡◌ {A = ℕ} 7 7)
    × (Header.log_index message_frame.header ≡ 0)
handle_app_message-IsAuthentic_example =
    handle_app_message-IsAuthentic mls mac aead cbor ed client 7 message_frame 7 100 (8 ∷ []) 0 0
      message_delivered
