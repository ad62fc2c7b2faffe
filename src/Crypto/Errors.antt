-- ===== src/Crypto/Errors.antt =====
-- crates/lockframe-crypto/src/sender_keys/error.rs. The texts of `DecryptionFailed` are the two
-- that encryption.rs writes.
use lockframe.Common.{ℕ, Bool, true, false}

pub data Reason : Type 0 where
  generation_mismatch : ℕ → ℕ → Reason
  authentication_failed : Reason

pub data SenderKeyError : Type 0 where
  unknown_sender : (sender_index : ℕ) → SenderKeyError
  ratchet_too_far_behind : (current requested : ℕ) → SenderKeyError
  decryption_failed : (reason : Reason) → SenderKeyError
  epoch_mismatch : (expected actual : ℕ) → SenderKeyError
  invalid_key_length : (expected actual : ℕ) → SenderKeyError
  generation_overflow : (current : ℕ) → SenderKeyError

unfoldable pub is_fatal : SenderKeyError → Bool
is_fatal (decryption_failed reason) = true
is_fatal (invalid_key_length expected actual) = true
is_fatal (generation_overflow current) = true
is_fatal (unknown_sender sender_index) = false
is_fatal (ratchet_too_far_behind current requested) = false
is_fatal (epoch_mismatch expected actual) = false
