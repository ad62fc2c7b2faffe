-- ===== src/Client/SenderKeys/Agreement.antt =====
-- Two stores of one epoch agree on the messages between them
-- (crates/lockframe-client/src/sender_key_store.rs).
use lockframe.Common.{
  ℕ, suc, ◌+◌, ◌-◌, ◌≡◌, ◌≤◌, refl, ap, List, [], ◌∷◌, Bool, true, false, if◌then◌else◌, length,
  Result, ok, err, contains, arith, Bool-cases, inl, inr,
}
use lockframe.Crypto.Errors.{SenderKeyError}
use lockframe.Crypto.Ratchet.{Key, max_skip, u32_max}
use lockframe.Crypto.Encryption.{Aead, Opens, EncryptedMessage}
use lockframe.Client.SenderKeys.Keys.{
  IsAt, initialize-IsAt, with_ratchet-IsAt, encrypt-IsAt, decrypt-message,
}
use lockframe.Client.SenderKeys.{SenderKeyStore, initialize_epoch, encrypt, decrypt}

-- A message that the sender sends, and whether it arrives.
pub record Message : Type 0 where
  pub arrives : Bool
  pub plaintext : List ℕ
  pub random_bytes : List ℕ

module _ (mac : Key → List ℕ → Key) (aead : Aead) where
  deliver :
      (SenderKeyStore → List (Result SenderKeyError (List ℕ)))
      → SenderKeyStore
      → Bool
      → Result SenderKeyError EncryptedMessage
      → List (Result SenderKeyError (List ℕ))
  deliver next receiver arrives (err e) = err e ∷ next receiver
  deliver next receiver false (ok encrypted) = next receiver
  deliver next receiver true (ok encrypted) =
      (decrypt mac aead receiver encrypted).1 ∷ next (decrypt mac aead receiver encrypted).0

  -- What the receiver decrypts of the messages that `s` sends one after the other.
  unfoldable pub exchange :
      SenderKeyStore → SenderKeyStore → ℕ → List Message → List (Result SenderKeyError (List ℕ))
  unfolding deliver
  exchange sender receiver s [] = []
  exchange sender receiver s (m ∷ messages) =
      let sent = encrypt mac aead sender s m.plaintext m.random_bytes in
      deliver (λ r. exchange sent.0 r s messages) receiver m.arrives sent.1

-- The plaintexts of the messages that arrive.
abbrev pub arrived : List Message → List (Result SenderKeyError (List ℕ))
arrived [] = []
arrived (m ∷ messages) = if m.arrives then ok m.plaintext ∷ arrived messages else arrived messages

-- No more than `max_skip` messages are lost in a row; `gap` have been lost before.
abbrev pub WithinSkip : ℕ → List Message → Type 0
WithinSkip gap [] = Unit
WithinSkip gap (m ∷ messages) =
    if m.arrives then (gap ≤ max_skip) × WithinSkip 0 messages else WithinSkip (suc gap) messages

module _ (expand : List ℕ → List ℕ → ℕ → List ℕ) (mac : Key → List ℕ → Key) (aead : Aead)
    (opens : Opens aead) (secret : List ℕ) (epoch : ℕ) where
  abbrev Has : SenderKeyStore → ℕ → ℕ → Type 0
  Has = IsAt expand mac aead opens secret epoch

  exchange-arrived :
      (messages : List Message) (sender receiver : SenderKeyStore) (s n k : ℕ)
      → Has sender s n
      → Has receiver s k
      → k ≤ n
      → WithinSkip (n - k) messages
      → n + length messages ≤ u32_max
      → exchange mac aead sender receiver s messages ≡ arrived messages
  unfolding exchange deliver
  exchange-arrived [] sender receiver s n k c d le gaps h = refl
  exchange-arrived (m ∷ messages) sender receiver s n k c d le gaps h =
      let sent = with_ratchet-IsAt expand mac aead opens secret epoch sender s n (suc n) c in
      elim (Bool-cases m.arrives) [
        | inl came ↦
            let (near, rest) = rw came at gaps in
            let even : suc n - suc n ≡ 0 = omega arith in
            rw
              (
                encrypt-IsAt expand mac aead opens secret epoch sender s n m.plaintext
                    m.random_bytes c (omega arith),
                came,
                decrypt-message expand mac aead opens secret epoch receiver s k n m.plaintext
                    m.random_bytes d le near (omega arith),
              )
              (ap (λ rs. ok m.plaintext ∷ rs)
                (exchange-arrived messages _ _ s (suc n) (suc n) sent
                  (with_ratchet-IsAt expand mac aead opens secret epoch receiver s k (suc n) d)
                  (omega arith) (rw even rest) (omega arith)))
        | inr lost ↦
            let rest = rw lost at gaps in
            let gap : suc n - k ≡ suc (n - k) = omega arith in
            rw
              (
                encrypt-IsAt expand mac aead opens secret epoch sender s n m.plaintext
                    m.random_bytes c (omega arith),
                lost,
              )
              (exchange-arrived messages _ receiver s (suc n) k sent d (omega arith) (rw gap rest)
                (omega arith))
      ]

  -- Two stores of one epoch, for member lists that have the sender: the receiver decrypts every
  -- message that arrives, in order, to what was sent, if no more than `max_skip` messages in a row
  -- are lost and the sender sends no more messages than generations are.
  pub exchange-delivers :
      (senders receivers : List ℕ) (s : ℕ) (messages : List Message)
      → contains s senders ≡ true
      → contains s receivers ≡ true
      → WithinSkip 0 messages
      → length messages ≤ u32_max
      → exchange mac aead
          (initialize_epoch expand secret epoch senders)
          (initialize_epoch expand secret epoch receivers)
          s
          messages
        ≡ arrived messages
  exchange-delivers senders receivers s messages p q gaps h =
      exchange-arrived messages (initialize_epoch expand secret epoch senders)
        (initialize_epoch expand secret epoch receivers) s 0 0
        (initialize-IsAt expand mac aead opens secret epoch senders s p)
        (initialize-IsAt expand mac aead opens secret epoch receivers s q) (omega arith) gaps
        (omega arith)
