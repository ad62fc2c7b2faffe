-- ===== src/Crypto/Encryption/Opening.antt =====
-- Decryption undoes encryption under one key
-- (crates/lockframe-crypto/src/sender_keys/encryption.rs).
use lockframe.Common.{ℕ, ◌≡◌, List, ok, refl, ==_self}
use lockframe.Crypto.Ratchet.{MessageKey}
use lockframe.Crypto.Encryption.{Aead, Opens, encrypt_message, decrypt_message, authenticated}

-- For an AEAD that opens what it sealed, the message key that encrypted a plaintext decrypts it,
-- whatever the epoch, the sender and the random suffix of the nonce.
pub decrypt_message-encrypt_message :
    (aead : Aead) (opens : Opens aead) (plaintext random : List ℕ) (key : MessageKey)
    (epoch sender_index : ℕ)
    → decrypt_message aead (encrypt_message aead plaintext key epoch sender_index random) key
      ≡ ok plaintext
unfolding encrypt_message decrypt_message authenticated
decrypt_message-encrypt_message aead opens plaintext random key epoch sender_index =
    rw (==_self key.generation, opens) refl
