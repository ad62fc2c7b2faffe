-- ===== src/Client/SenderKeys.antt =====
-- crates/lockframe-client/src/sender_key_store.rs: the ratchets of a room's members.
--
-- HMAC, HKDF and the AEAD are the parameters of the crypto modules.
pub mod Keys
pub mod Agreement
use lockframe.Common.{
  ℕ, List, [], ◌∷◌, Bool, not, Option, none, some, ◌==◌, if◌then◌else◌, length, Result, ok, err,
  Map, lookup, insert, contains_key,
}
use lockframe.Crypto.Errors.{SenderKeyError, unknown_sender, epoch_mismatch}
use lockframe.Crypto.Ratchet as Ratchet
use lockframe.Crypto.Ratchet.{Key, MessageKey, SymmetricRatchet, advance, advance_to}
use lockframe.Crypto.Derivation.{derive_sender_key_seed}
use lockframe.Crypto.Encryption.{Aead, EncryptedMessage, encrypt_message, decrypt_message}

pub record SenderKeyStore : Type 0 where
  pub epoch : ℕ
  pub ratchets : Map SymmetricRatchet

unfoldable pub member_count : SenderKeyStore → ℕ
member_count s = length s.ratchets

unfoldable pub has_member : SenderKeyStore → ℕ → Bool
has_member s sender_index = contains_key sender_index s.ratchets

generation_of : Option SymmetricRatchet → Option ℕ
generation_of none = none
generation_of (some r) = some r.generation

unfoldable pub generation : SenderKeyStore → ℕ → Option ℕ
unfolding generation_of
generation s sender_index = generation_of (lookup sender_index s.ratchets)

-- The store after `get_mut` has changed a ratchet in place.
abbrev pub with_ratchet : SenderKeyStore → ℕ → SymmetricRatchet → SenderKeyStore
with_ratchet s sender_index r = record s { ratchets = insert sender_index r s.ratchets }

module _ (expand : List ℕ → List ℕ → ℕ → List ℕ) where
  -- The loop over the members, in their order.
  unfoldable pub seeded : List ℕ → ℕ → List ℕ → Map SymmetricRatchet → Map SymmetricRatchet
  seeded epoch_secret epoch [] ratchets = ratchets
  seeded epoch_secret epoch (sender_index ∷ member_indices) ratchets =
      seeded epoch_secret epoch member_indices (
        insert sender_index
          (Ratchet.new (derive_sender_key_seed expand epoch_secret epoch sender_index)) ratchets)

  unfoldable pub initialize_epoch : List ℕ → ℕ → List ℕ → SenderKeyStore
  initialize_epoch epoch_secret epoch member_indices = record {
    epoch = epoch;
    ratchets = seeded epoch_secret epoch member_indices [];
  }

module _ (mac : Key → List ℕ → Key) (aead : Aead) where
  encrypt_with :
      SenderKeyStore
      → ℕ
      → List ℕ
      → List ℕ
      → SymmetricRatchet × Result SenderKeyError MessageKey
      → SenderKeyStore × Result SenderKeyError EncryptedMessage
  encrypt_with s sender_index plaintext random_bytes (r, err e) =
      (with_ratchet s sender_index r, err e)
  encrypt_with s sender_index plaintext random_bytes (r, ok message_key) = (
    with_ratchet s sender_index r,
    ok (encrypt_message aead plaintext message_key s.epoch sender_index random_bytes),
  )

  encrypt_from :
      SenderKeyStore
      → ℕ
      → List ℕ
      → List ℕ
      → Option SymmetricRatchet
      → SenderKeyStore × Result SenderKeyError EncryptedMessage
  unfolding encrypt_with
  encrypt_from s sender_index plaintext random_bytes none = (s, err (unknown_sender sender_index))
  encrypt_from s sender_index plaintext random_bytes (some ratchet) =
      encrypt_with s sender_index plaintext random_bytes (advance mac ratchet)

  unfoldable pub encrypt :
      SenderKeyStore → ℕ → List ℕ → List ℕ → SenderKeyStore × Result SenderKeyError EncryptedMessage
  unfolding encrypt_from
  encrypt s sender_index plaintext random_bytes =
      encrypt_from s sender_index plaintext random_bytes (lookup sender_index s.ratchets)

  decrypt_with :
      SenderKeyStore
      → EncryptedMessage
      → SymmetricRatchet × Result SenderKeyError MessageKey
      → SenderKeyStore × Result SenderKeyError (List ℕ)
  decrypt_with s encrypted (r, err e) = (with_ratchet s encrypted.sender_index r, err e)
  decrypt_with s encrypted (r, ok message_key) =
      (with_ratchet s encrypted.sender_index r, decrypt_message aead encrypted message_key)

  decrypt_from :
      SenderKeyStore
      → EncryptedMessage
      → Option SymmetricRatchet
      → SenderKeyStore × Result SenderKeyError (List ℕ)
  unfolding decrypt_with
  decrypt_from s encrypted none = (s, err (unknown_sender encrypted.sender_index))
  decrypt_from s encrypted (some ratchet) =
      decrypt_with s encrypted (advance_to mac ratchet encrypted.generation)

  unfoldable pub decrypt :
      SenderKeyStore → EncryptedMessage → SenderKeyStore × Result SenderKeyError (List ℕ)
  unfolding decrypt_from
  decrypt s encrypted =
      if not (encrypted.epoch == s.epoch)
      then (s, err (epoch_mismatch s.epoch encrypted.epoch))
      else decrypt_from s encrypted (lookup encrypted.sender_index s.ratchets)
