-- ===== src/Client/Messages/Delivery.antt =====
-- What the handler of application messages delivers (`handle_app_message` in
-- crates/lockframe-client/src/client.rs).
use lockframe.Common.{
  ℕ, ◌≡◌, ◌≢◌, refl, ap, ◌∙◌, List, [], ◌∷◌, false, Option, none, some, Option-cases, Bool-cases,
  inl, inr, ◌==◌, ==_iff, Result, ok, err, lookup, arith,
}
use lockframe.Proto.Header
use lockframe.Proto.Frame.{Frame}
use lockframe.Proto.Payload.Types.{EncryptedMessage}
use lockframe.Proto.Payload.Coder.{Cbor}
use lockframe.Core.Validator.{Ed25519}
use lockframe.Core.Mls.{OpenMls, MlsError}
use lockframe.Core.Mls.Membership.{
  epoch, export_validation_state, validate_frame, member_id_by_leaf_index,
}
use lockframe.Crypto.Errors.{SenderKeyError}
use lockframe.Crypto.Ratchet.{Key}
use lockframe.Crypto.Encryption.{Aead}
use lockframe.Client.SenderKeys.{SenderKeyStore, decrypt}
use lockframe.Client.Types.{Client, ClientError, Actions, RoomState, deliver_message}
use lockframe.Client.Messages.{
  proto_to_crypto_encrypted, decrypted, from_member, payload_read, validated, in_room,
  handle_app_message,
}

module _ {G P : Type 0} (mls : OpenMls G P) (mac : Key → List ℕ → Key) (aead : Aead) (cbor : Cbor)
    (ed : Ed25519) where
  -- What stands behind a delivery in a room: the epoch of the frame is the room's, the group accepts the frame,
  -- its payload decodes to a message whose leaf is that of the sender in the header, and the sender's key of the
  -- message's generation opens it.
  pub record IsAuthentic (c : Client G P) (room : RoomState G) (f : Frame) (sender : ℕ)
      (plaintext : List ℕ) : Type 0 where
    pub foreign : sender ≢ c.sender_id
    pub from_header : Header.sender_id f.header ≡ sender
    pub current : Header.epoch f.header ≡ epoch mls room.mls_group
    pub accepted :
        validate_frame mls ed room.mls_group f (some (export_validation_state mls room.mls_group))
        ≡ ok tt
    pub message : EncryptedMessage
    pub payload : cbor.app_message.from_reader f.payload ≡ some message
    pub leaf : member_id_by_leaf_index mls room.mls_group message.sender_index ≡ some sender
    pub opened :
        (decrypt mac aead room.sender_keys (proto_to_crypto_encrypted message)).1 ≡ ok plaintext

  foreign_of :
      (f : Frame) (c : Client G P) (sender : ℕ)
      → (Header.sender_id f.header == c.sender_id) ≡ false
      → Header.sender_id f.header ≡ sender
      → sender ≢ c.sender_id
  foreign_of f c sender other is same = ground (arith, other, is, same)

  decrypted_ok :
      (c : Client G P) (r : ℕ) (room : RoomState G) (f : Frame) (verified : ℕ)
      (p : SenderKeyStore × Result SenderKeyError (List ℕ)) (r' sender : ℕ) (plaintext : List ℕ)
      (i t : ℕ)
      → (decrypted mls mac aead cbor ed c r room f verified p).1
        ≡ ok (deliver_message r' sender plaintext i t ∷ [])
      → (p.1 ≡ ok plaintext) × (verified ≡ sender) × (r ≡ r') × (Header.log_index f.header ≡ i)
  unfolding decrypted
  decrypted_ok c r room f verified (keys, err e) r' sender plaintext i t h = cc
  decrypted_ok c r room f verified (keys, ok text) r' sender plaintext i t h = ground (arith, h)

  module _ (c : Client G P) (r : ℕ) (room : RoomState G) (f : Frame) (r' sender : ℕ)
      (plaintext : List ℕ) (i t : ℕ) where
    abbrev delivery : Result ClientError Actions
    delivery = ok (deliver_message r' sender plaintext i t ∷ [])

    from_member_ok :
        (e : EncryptedMessage) (o : Option ℕ)
        → (from_member mls mac aead cbor ed c r room f e o).1 ≡ delivery
        → (o ≡ some sender)
          × (Header.sender_id f.header ≡ sender)
          × ((decrypt mac aead room.sender_keys (proto_to_crypto_encrypted e)).1 ≡ ok plaintext)
          × (r ≡ r')
          × (Header.log_index f.header ≡ i)
    unfolding from_member
    from_member_ok e none h = cc
    from_member_ok e (some verified) h = elim (Bool-cases (Header.sender_id f.header == verified)) [
      | inr other ↦ cc (rw other at h)
      | inl same ↦
          let (opened, is, here, at_index) =
            decrypted_ok c r room f verified
              (decrypt mac aead room.sender_keys (proto_to_crypto_encrypted e)) r' sender plaintext
              i t (rw same at h) in
          (
            ap some is,
            (==_iff (Header.sender_id f.header) verified).0 same ∙ is,
            opened,
            here,
            at_index,
          )
    ]

    payload_read_ok :
        (o : Option EncryptedMessage)
        → (payload_read mls mac aead cbor ed c r room f o).1 ≡ delivery
        → (e : EncryptedMessage) × (o ≡ some e)
          × (member_id_by_leaf_index mls room.mls_group e.sender_index ≡ some sender)
          × (Header.sender_id f.header ≡ sender)
          × ((decrypt mac aead room.sender_keys (proto_to_crypto_encrypted e)).1 ≡ ok plaintext)
          × (r ≡ r')
          × (Header.log_index f.header ≡ i)
    unfolding payload_read
    payload_read_ok none h = cc
    payload_read_ok (some e) h =
        let (leaf, header, opened, here, at_index) =
          from_member_ok e (member_id_by_leaf_index mls room.mls_group e.sender_index) h in
        (e, refl, leaf, header, opened, here, at_index)

    validated_ok :
        (o : Result MlsError (Unit {0}))
        → (validated mls mac aead cbor ed c r room f o).1 ≡ delivery
        → (o ≡ ok tt)
          × ((payload_read mls mac aead cbor ed c r room f
                (cbor.app_message.from_reader f.payload)).1
              ≡ delivery)
    unfolding validated
    validated_ok (err e) h = cc
    validated_ok (ok _) h = (refl, h)

  -- A message that `handle_app_message` delivers, the handler of the frames with the opcode of an application message,
  -- comes from a room that the client is in, and is authentic there: the room is the one it was called for, the frame
  -- has the room's epoch and is accepted by its group, its sender is another member, at whose leaf the payload was
  -- encrypted, and the plaintext is what that member's key opens; the log index is the frame's. What the group delivers
  -- out of frames of other opcodes is not covered.
  pub handle_app_message-IsAuthentic :
      (c : Client G P) (r : ℕ) (f : Frame) (r' sender : ℕ) (plaintext : List ℕ) (i t : ℕ)
      → (handle_app_message mls mac aead cbor ed c r f).1
        ≡ ok (deliver_message r' sender plaintext i t ∷ [])
      → (room : RoomState G) × (lookup r c.rooms ≡ some room)
        × IsAuthentic c room f sender plaintext
        × (r ≡ r')
        × (Header.log_index f.header ≡ i)
  unfolding handle_app_message in_room
  handle_app_message-IsAuthentic c r f r' sender plaintext i t h =
      elim (Bool-cases (Header.sender_id f.header == c.sender_id)) [
        | inl own ↦ cc (rw own at h)
        | inr other ↦ elim (Option-cases (lookup r c.rooms)) [
          | inl missing ↦ cc (rw (other, missing, in_room) at h)
          | inr (room, here) ↦
              elim (Bool-cases (Header.epoch f.header == epoch mls room.mls_group)) [
                | inr differs ↦ cc (rw (other, here, in_room, differs) at h)
                | inl current ↦
                    let h' : (validated mls mac aead cbor ed c r room f (
                          validate_frame mls ed room.mls_group f
                            (some (export_validation_state mls room.mls_group)))).1
                        ≡ ok (deliver_message r' sender plaintext i t ∷ []) =
                      rw (other, here, in_room, current) at h in
                    let (accepted, read) =
                      validated_ok c r room f r' sender plaintext i t
                        (validate_frame mls ed room.mls_group f
                          (some (export_validation_state mls room.mls_group)))
                        h' in
                    let (e, payload, leaf, header, opened, same, at_index) =
                      payload_read_ok c r room f r' sender plaintext i t
                        (cbor.app_message.from_reader f.payload) read in
                    (
                      room,
                      here,
                      record {
                        foreign = foreign_of f c sender other header;
                        from_header = header;
                        current =
                            (==_iff (Header.epoch f.header) (epoch mls room.mls_group)).0 current;
                        accepted = accepted;
                        message = e;
                        payload = payload;
                        leaf = leaf;
                        opened = opened;
                      },
                      same,
                      at_index,
                    )
              ]
        ]
      ]
