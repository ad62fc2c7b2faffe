-- ===== src/Crypto/Ratchet.antt =====
-- crates/lockframe-crypto/src/sender_keys/ratchet.rs: the symmetric ratchet.
--
-- HMAC-SHA256 is the parameter `mac` (key, then message); keys are byte lists. The erasure of old
-- keys is the overwriting of the chain key.
pub mod Chain
use lockframe.Common.{
  ℕ, zero, suc, ◌+◌, ◌-◌, ◌%◌, List, [], ◌∷◌, Bool, true, false, Option, none, some, ◌==◌, ltb, leb,
  if◌then◌else◌, Result, ok, err, ok_or,
}
use lockframe.Crypto.Errors.{SenderKeyError, ratchet_too_far_behind, generation_overflow}

abbrev pub Key : Type 0
Key = List ℕ

-- b"chain"
abbrev pub chain_label : List ℕ
chain_label = 99 ∷ 104 ∷ 97 ∷ 105 ∷ 110 ∷ []

-- b"message"
abbrev pub message_label : List ℕ
message_label = 109 ∷ 101 ∷ 115 ∷ 115 ∷ 97 ∷ 103 ∷ 101 ∷ []

abbrev pub max_skip : ℕ
max_skip = 1000

abbrev pub u32_max : ℕ
u32_max = 4294967295

abbrev pub wrapping_add : ℕ → ℕ → ℕ
wrapping_add a b = (a + b) % 4294967296

abbrev pub wrapping_sub : ℕ → ℕ → ℕ
wrapping_sub a b = (a + 4294967296 - b) % 4294967296

pub record MessageKey : Type 0 where
  pub key : Key
  pub generation : ℕ

pub record SymmetricRatchet : Type 0 where
  pub chain_key : Key
  pub generation : ℕ

unfoldable pub new : Key → SymmetricRatchet
new seed = record { chain_key = seed; generation = 0 }

module _ (mac : Key → List ℕ → Key) where
  unfoldable pub derive_message_key : SymmetricRatchet → Key
  derive_message_key r = mac r.chain_key message_label

  unfoldable pub derive_next_chain_key : SymmetricRatchet → Key
  derive_next_chain_key r = mac r.chain_key chain_label

  -- The ratchet after the call, and its result.
  unfoldable pub advance : SymmetricRatchet → SymmetricRatchet × Result SenderKeyError MessageKey
  unfolding derive_message_key derive_next_chain_key
  advance r = if r.generation == u32_max then (r, err (generation_overflow r.generation)) else (
    record { chain_key = derive_next_chain_key r; generation = wrapping_add r.generation 1 },
    ok (record { key = derive_message_key r; generation = r.generation }),
  )

  -- `Some(self.advance()?)`, then the rest of the loop.
  next_round :
      (SymmetricRatchet
        → Option MessageKey
        → SymmetricRatchet × Result SenderKeyError (Option MessageKey))
      → SymmetricRatchet × Result SenderKeyError MessageKey
      → SymmetricRatchet × Result SenderKeyError (Option MessageKey)
  next_round rest (r, err e) = (r, err e)
  next_round rest (r, ok key) = rest r (some key)

  -- `while self.generation <= target { message_key = Some(self.advance()?) }`; the fuel is the
  -- number of rounds at most.
  unfoldable pub advance_while :
      ℕ
      → ℕ
      → SymmetricRatchet
      → Option MessageKey
      → SymmetricRatchet × Result SenderKeyError (Option MessageKey)
  unfolding next_round
  advance_while zero target r message_key = (r, ok message_key)
  advance_while (suc fuel) target r message_key =
      let rest = advance_while fuel target in
      if leb r.generation target then next_round rest (advance r) else (r, ok message_key)

  -- `message_key.ok_or(..)` after the loop.
  last_key :
      ℕ
      → SymmetricRatchet × Result SenderKeyError (Option MessageKey)
      → SymmetricRatchet × Result SenderKeyError MessageKey
  last_key target (r, err e) = (r, err e)
  last_key target (r, ok message_key) =
      (r, ok_or message_key (ratchet_too_far_behind r.generation target))

  unfoldable pub advance_to :
      SymmetricRatchet → ℕ → SymmetricRatchet × Result SenderKeyError MessageKey
  unfolding last_key
  advance_to r target =
      if ltb target r.generation
      then (r, err (ratchet_too_far_behind r.generation target))
      else if ltb max_skip (wrapping_sub target r.generation)
      then (r, err (ratchet_too_far_behind r.generation target))
      else last_key target (advance_while (suc target - r.generation) target r none)
