-- ===== src/Examples/Keys.antt =====
-- Sender keys (crates/lockframe-crypto and crates/lockframe-client), with a code that joins its
-- inputs and a cipher that leaves the plaintext as it is.
use lockframe.Common.{ℕ, ◌≡◌, refl, List, [], ◌∷◌, ◌++◌, some, err, true, false, arith, contains}
use lockframe.Crypto.Errors.{ratchet_too_far_behind}
use lockframe.Crypto.Ratchet.{Key, MessageKey, advance_to}
use lockframe.Crypto.Ratchet.Chain.{ratchet_at, reached, advance_to-ratchet_at}
use lockframe.Crypto.Derivation.{info}
use lockframe.Crypto.Encryption.{Aead, Opens, EncryptedMessage}
use lockframe.Crypto.Encryption.Nonces.{build_nonce-injective}
use lockframe.Client.SenderKeys.{SenderKeyStore, initialize_epoch, decrypt}
use lockframe.Client.SenderKeys.Keys.{initialize-IsAt, decrypt-spends}
use lockframe.Client.SenderKeys.Agreement.{Message, exchange, arrived, exchange-delivers}

abbrev pub mac : Key → List ℕ → Key
mac key message = message ++ key

abbrev pub expand : List ℕ → List ℕ → ℕ → List ℕ
expand secret info n = info ++ secret

abbrev pub aead : Aead
aead = record {
  encrypt = λ key nonce plaintext. plaintext;
  decrypt = λ key nonce ciphertext. some ciphertext;
}

opens : Opens aead
opens key nonce plaintext = refl

advance_to-ratchet_at_example :
    advance_to mac (ratchet_at mac (1 ∷ []) 2) 5 ≡ reached mac (1 ∷ []) 2 5
advance_to-ratchet_at_example = advance_to-ratchet_at mac (1 ∷ []) 2 5 (omega arith)

-- Three messages, the second of which is lost.
abbrev messages : List Message
messages =
    record { arrives = true; plaintext = 1 ∷ 1 ∷ []; random_bytes = [] }
    ∷ record { arrives = false; plaintext = 2 ∷ []; random_bytes = [] }
    ∷ record { arrives = true; plaintext = 3 ∷ []; random_bytes = [] }
    ∷ []

sender_is_member : contains 4 (3 ∷ 4 ∷ []) ≡ true
unfolding contains
sender_is_member = refl

exchange-delivers_example :
    exchange mac aead
      (initialize_epoch expand (7 ∷ []) 1 (3 ∷ 4 ∷ []))
      (initialize_epoch expand (7 ∷ []) 1 (3 ∷ 4 ∷ []))
      4
      messages
    ≡ arrived messages
exchange-delivers_example =
    exchange-delivers expand mac aead opens (7 ∷ []) 1 (3 ∷ 4 ∷ []) (3 ∷ 4 ∷ []) 4 messages
      sender_is_member sender_is_member (omega arith, (omega arith, tt)) (omega arith)

-- A message that claims generation 9, and one of generation 0.
abbrev forged : EncryptedMessage
forged = record { epoch = 1; sender_index = 4; generation = 9; nonce = []; ciphertext = [] }

abbrev earlier : EncryptedMessage
earlier = record { epoch = 1; sender_index = 4; generation = 0; nonce = []; ciphertext = [] }

abbrev store : SenderKeyStore
store = initialize_epoch expand (7 ∷ []) 1 (3 ∷ 4 ∷ [])

decrypt-spends_example :
    (decrypt mac aead (decrypt mac aead store forged).0 earlier).1
    ≡ err (ratchet_too_far_behind 10 0)
decrypt-spends_example =
    decrypt-spends expand mac aead opens (7 ∷ []) 1 store 0 forged earlier
      (initialize-IsAt expand mac aead opens (7 ∷ []) 1 (3 ∷ 4 ∷ []) 4 sender_is_member) refl
      (omega arith) (omega arith) (omega arith) refl refl (omega arith)

abbrev key : MessageKey
key = record { key = 5 ∷ []; generation = 3 }

build_nonce-injective_example :
    (◌≡◌ {A = ℕ} 1 1) × (◌≡◌ {A = ℕ} 4 4) × (◌≡◌ {A = ℕ} 9 9) × (◌≡◌ {A = List ℕ} (0 ∷ []) (0 ∷ []))
build_nonce-injective_example =
    build_nonce-injective 1 1 4 4 9 9 (0 ∷ []) (0 ∷ []) (omega arith) (omega arith) (omega arith)
      (omega arith) (omega arith) (omega arith) refl
