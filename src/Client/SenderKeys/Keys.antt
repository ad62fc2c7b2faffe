-- ===== src/Client/SenderKeys/Keys.antt =====
-- The keys of a store are those of its senders' chains
-- (crates/lockframe-client/src/sender_key_store.rs).
use lockframe.Common.{
  ℕ, suc, ◌-◌, ◌≡◌, ◌≤◌, ◌<◌, refl, ap, ◌∙◌, List, [], ◌∷◌, true, false, some, ◌==◌, ==_self, ltb,
  ltb_of_le, if◌then◌else◌, ok, err, Map, lookup, insert, contains, lookup-insert, arith,
}
use lockframe.Crypto.Errors.{ratchet_too_far_behind}
use lockframe.Crypto.Ratchet as Ratchet
use lockframe.Crypto.Ratchet.{
  Key, MessageKey, SymmetricRatchet, advance, advance_to, max_skip, u32_max,
}
use lockframe.Crypto.Ratchet.Chain.{
  chain, ratchet_at, key_at, reached, advance-ratchet_at, advance_to-ratchet_at,
}
use lockframe.Crypto.Derivation.{derive_sender_key_seed}
use lockframe.Crypto.Encryption.{Aead, Opens, EncryptedMessage, encrypt_message, decrypt_message}
use lockframe.Crypto.Encryption.Opening.{decrypt_message-encrypt_message}
use lockframe.Client.SenderKeys.{
  SenderKeyStore, with_ratchet, seeded, initialize_epoch, encrypt, encrypt_from, encrypt_with,
  decrypt, decrypt_from, decrypt_with,
}

module _ (expand : List ℕ → List ℕ → ℕ → List ℕ) (mac : Key → List ℕ → Key) (aead : Aead)
    (opens : Opens aead) (secret : List ℕ) (epoch : ℕ) where
  abbrev pub seed : ℕ → Key
  seed s = derive_sender_key_seed expand secret epoch s

  abbrev pub key : ℕ → ℕ → MessageKey
  key s n = key_at mac (seed s) n

  -- The store has the ratchet of `s` at generation `n`.
  pub record IsAt (store : SenderKeyStore) (s n : ℕ) : Type 0 where
    pub epoch_eq : store.epoch ≡ epoch
    pub ratchet_eq : lookup s store.ratchets ≡ some (ratchet_at mac (seed s) n)

  -- The message of `s` at generation `n`.
  abbrev pub message : ℕ → ℕ → List ℕ → List ℕ → EncryptedMessage
  message s n plaintext random = encrypt_message aead plaintext (key s n) epoch s random

  lookup-seeded :
      (s : ℕ) (members : List ℕ) (ratchets : Map SymmetricRatchet)
      → lookup s (seeded expand secret epoch members ratchets)
        ≡ (if contains s members then some (Ratchet.new (seed s)) else lookup s ratchets)
  unfolding seeded contains
  lookup-seeded s [] ratchets = refl
  lookup-seeded s (j ∷ members) ratchets = ground (
    arith,
    lookup-seeded s members (insert j (Ratchet.new (seed j)) ratchets),
    lookup-insert j s (Ratchet.new (seed j)) ratchets,
  )

  pub initialize-IsAt :
      (members : List ℕ) (s : ℕ)
      → contains s members ≡ true
      → IsAt (initialize_epoch expand secret epoch members) s 0
  unfolding initialize_epoch Ratchet.new chain
  initialize-IsAt members s h = record {
    epoch_eq = refl;
    ratchet_eq = lookup-seeded s members [] ∙ rw h refl;
  }

  pub with_ratchet-IsAt :
      (store : SenderKeyStore) (s n m : ℕ)
      → IsAt store s n
      → IsAt (with_ratchet store s (ratchet_at mac (seed s) m)) s m
  with_ratchet-IsAt store s n m c = record {
    epoch_eq = c.epoch_eq;
    ratchet_eq = lookup-insert s s (ratchet_at mac (seed s) m) store.ratchets ∙ rw (==_self s) refl;
  }

  pub encrypt-IsAt :
      (store : SenderKeyStore) (s n : ℕ) (plaintext random : List ℕ)
      → IsAt store s n
      → n < u32_max
      → encrypt mac aead store s plaintext random ≡ (
        with_ratchet store s (ratchet_at mac (seed s) (suc n)),
        ok (message s n plaintext random),
      )
  unfolding encrypt encrypt_from encrypt_with
  encrypt-IsAt store s n plaintext random c h =
      rw (c.ratchet_eq, advance-ratchet_at mac (seed s) n h)
        (ap
          (λ ep. (
            with_ratchet store s (ratchet_at mac (seed s) (suc n)),
            ok (encrypt_message aead plaintext (key s n) ep s random),
          ))
          c.epoch_eq)

  decrypt-reached :
      (store : SenderKeyStore) (k : ℕ) (e : EncryptedMessage)
      → IsAt store e.sender_index k
      → e.epoch ≡ epoch
      → e.generation ≤ u32_max
      → decrypt mac aead store e
        ≡ decrypt_with mac aead store e (reached mac (seed e.sender_index) k e.generation)
  unfolding decrypt decrypt_from
  decrypt-reached store k e c now h =
      let current : (e.epoch == store.epoch) ≡ true = ground (arith, c.epoch_eq) in
      rw (current, c.ratchet_eq)
        (ap (decrypt_with mac aead store e)
          (advance_to-ratchet_at mac (seed e.sender_index) k e.generation h))

  -- Whoever made it, a message that the ratchet can reach moves the receiver past its generation.
  decrypt-IsAt :
      (store : SenderKeyStore) (k : ℕ) (e : EncryptedMessage)
      → IsAt store e.sender_index k
      → e.epoch ≡ epoch
      → k ≤ e.generation
      → e.generation - k ≤ max_skip
      → e.generation < u32_max
      → decrypt mac aead store e ≡ (
        with_ratchet store e.sender_index (ratchet_at mac (seed e.sender_index) (suc e.generation)),
        decrypt_message aead e (key e.sender_index e.generation),
      )
  unfolding decrypt_with
  decrypt-IsAt store k e c now le near h =
      let early : (e.generation == u32_max) ≡ false = ground arith in
      decrypt-reached store k e c now (omega arith)
      ∙ rw (ltb_of_le e.generation k le, ltb_of_le max_skip (e.generation - k) near, early) refl

  pub decrypt-message :
      (store : SenderKeyStore) (s k n : ℕ) (plaintext random : List ℕ)
      → IsAt store s k
      → k ≤ n
      → n - k ≤ max_skip
      → n < u32_max
      → decrypt mac aead store (message s n plaintext random)
        ≡ (with_ratchet store s (ratchet_at mac (seed s) (suc n)), ok plaintext)
  unfolding encrypt_message
  decrypt-message store s k n plaintext random c le near h =
      decrypt-IsAt store k (message s n plaintext random) c refl le near h
      ∙ ap (λ r. (with_ratchet store s (ratchet_at mac (seed s) (suc n)), r))
          (decrypt_message-encrypt_message aead opens plaintext random (key s n) epoch s)

  -- A message within reach of the receiver's ratchet spends every key up to its own generation,
  -- even if it does not authenticate: afterwards each message of such a generation is refused, an
  -- authentic one and the message itself too.
  pub decrypt-spends :
      (store : SenderKeyStore) (k : ℕ) (e later : EncryptedMessage)
      → IsAt store e.sender_index k
      → e.epoch ≡ epoch
      → k ≤ e.generation
      → e.generation - k ≤ max_skip
      → e.generation < u32_max
      → later.epoch ≡ epoch
      → later.sender_index ≡ e.sender_index
      → later.generation ≤ e.generation
      → (decrypt mac aead (decrypt mac aead store e).0 later).1
        ≡ err (ratchet_too_far_behind (suc e.generation) later.generation)
  unfolding decrypt_with
  decrypt-spends store k e later c now le near h now' from old =
      let moved = with_ratchet-IsAt store e.sender_index k (suc e.generation) c in
      let spent : ltb later.generation (suc e.generation) ≡ true = ground arith in
      rw (decrypt-IsAt store k e c now le near h) (
        ap (λ r. r.1)
          (decrypt-reached _ (suc e.generation) later (rw from moved) now' (omega arith))
        ∙ rw spent refl)
