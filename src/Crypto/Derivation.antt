-- ===== src/Crypto/Derivation.antt =====
-- crates/lockframe-crypto/src/sender_keys/derivation.rs: the seeds of the ratchets.
--
-- HKDF-SHA256 is the parameter `expand`: the secret, the info string and the output length.
pub mod Info
use lockframe.Common.{ℕ, List, [], ◌∷◌, ◌++◌, map, to_be_bytes}

-- b"lockframeSenderV1"
abbrev pub sender_key_label : List ℕ
sender_key_label =
    108 ∷ 111 ∷ 99 ∷ 107 ∷ 102 ∷ 114 ∷ 97 ∷ 109 ∷ 101 ∷ 83 ∷ 101 ∷ 110 ∷ 100 ∷ 101 ∷ 114 ∷ 86 ∷ 49
    ∷ []

unfoldable pub info : ℕ → ℕ → List ℕ
info epoch sender_index = sender_key_label ++ (to_be_bytes 8 epoch ++ to_be_bytes 4 sender_index)

module _ (expand : List ℕ → List ℕ → ℕ → List ℕ) where
  unfoldable pub derive_sender_key_seed : List ℕ → ℕ → ℕ → List ℕ
  derive_sender_key_seed epoch_secret epoch sender_index =
      expand epoch_secret (info epoch sender_index) 32

  unfoldable pub derive_all_sender_seeds : List ℕ → ℕ → List ℕ → List (ℕ × List ℕ)
  derive_all_sender_seeds epoch_secret epoch [] = []
  derive_all_sender_seeds epoch_secret epoch (index ∷ member_indices) =
      (index, derive_sender_key_seed epoch_secret epoch index)
      ∷ derive_all_sender_seeds epoch_secret epoch member_indices
