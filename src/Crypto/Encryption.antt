-- ===== src/Crypto/Encryption.antt =====
-- crates/lockframe-crypto/src/sender_keys/encryption.rs: messages under a ratchet's keys.
--
-- XChaCha20-Poly1305 is the parameter `aead`: encryption and decryption of a byte list under a
-- key and a nonce.
pub mod Nonces
pub mod Opening
use lockframe.Common.{
  ℕ, ◌-◌, ◌≡◌, List, ◌++◌, Bool, not, Option, none, some, ◌==◌, if◌then◌else◌, length, Result, ok,
  err, to_be_bytes,
}
use lockframe.Crypto.Errors.{
  SenderKeyError, decryption_failed, generation_mismatch, authentication_failed,
}
use lockframe.Crypto.Ratchet.{Key, MessageKey}

abbrev pub nonce_random_size : ℕ
nonce_random_size = 8

abbrev pub poly1305_tag_size : ℕ
poly1305_tag_size = 16

pub record Aead : Type 0 where
  pub encrypt : Key → List ℕ → List ℕ → List ℕ
  pub decrypt : Key → List ℕ → List ℕ → Option (List ℕ)

-- What is documented of an AEAD: a ciphertext decrypts under its key and nonce.
abbrev pub Opens : Aead → Type 0
Opens aead =
    (key nonce plaintext : List ℕ)
    → aead.decrypt key nonce (aead.encrypt key nonce plaintext) ≡ some plaintext

pub record EncryptedMessage : Type 0 where
  pub epoch : ℕ
  pub sender_index : ℕ
  pub generation : ℕ
  pub nonce : List ℕ
  pub ciphertext : List ℕ

unfoldable pub plaintext_len : EncryptedMessage → ℕ
plaintext_len e = length e.ciphertext - poly1305_tag_size

unfoldable pub build_nonce : ℕ → ℕ → ℕ → List ℕ → List ℕ
build_nonce epoch sender_index generation random_suffix =
    to_be_bytes 8 epoch
    ++ (to_be_bytes 4 sender_index ++ (to_be_bytes 4 generation ++ random_suffix))

-- `.map_err(..)` of the failed authentication.
authenticated : Option (List ℕ) → Result SenderKeyError (List ℕ)
authenticated none = err (decryption_failed authentication_failed)
authenticated (some plaintext) = ok plaintext

module _ (aead : Aead) where
  unfoldable pub encrypt_message : List ℕ → MessageKey → ℕ → ℕ → List ℕ → EncryptedMessage
  encrypt_message plaintext message_key epoch sender_index random_suffix =
      let nonce = build_nonce epoch sender_index message_key.generation random_suffix in
      record {
        epoch = epoch;
        sender_index = sender_index;
        generation = message_key.generation;
        nonce = nonce;
        ciphertext = aead.encrypt message_key.key nonce plaintext;
      }

  unfoldable pub decrypt_message : EncryptedMessage → MessageKey → Result SenderKeyError (List ℕ)
  unfolding authenticated
  decrypt_message encrypted message_key =
      if not (message_key.generation == encrypted.generation)
      then err (decryption_failed (generation_mismatch message_key.generation encrypted.generation))
      else authenticated (aead.decrypt message_key.key encrypted.nonce encrypted.ciphertext)
