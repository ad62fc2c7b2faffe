-- ===== src/Crypto/Ratchet/Chain.antt =====
-- The keys of a ratchet are those of a chain (crates/lockframe-crypto/src/sender_keys/ratchet.rs).
use lockframe.Common.{
  ℕ, zero, suc, ◌+◌, ◌-◌, ◌%◌, ◌≡◌, ◌≤◌, ◌<◌, refl, ap, List, false, Option, none, some, ◌==◌, ltb,
  if◌then◌else◌, Result, ok, err, arith, Bool-cases, inl, inr, leb_of_le,
}
use lockframe.Crypto.Errors.{SenderKeyError, ratchet_too_far_behind, generation_overflow}
use lockframe.Crypto.Ratchet.{
  Key, MessageKey, SymmetricRatchet, chain_label, message_label, max_skip, u32_max, wrapping_sub,
  advance, advance_while, advance_to, last_key, next_round, derive_message_key,
  derive_next_chain_key,
}

module _ (mac : Key → List ℕ → Key) (seed : Key) where
  -- The chain key of a generation.
  unfoldable pub chain : ℕ → Key
  chain zero = seed
  chain (suc n) = mac (chain n) chain_label

  -- The ratchet and the message key at a generation.
  abbrev pub ratchet_at : ℕ → SymmetricRatchet
  ratchet_at n = record { chain_key = chain n; generation = n }

  abbrev pub key_at : ℕ → MessageKey
  key_at n = record { key = mac (chain n) message_label; generation = n }

  pub advance-ratchet_at :
      (n : ℕ) → n < u32_max → advance mac (ratchet_at n) ≡ (ratchet_at (suc n), ok (key_at n))
  unfolding chain advance derive_message_key derive_next_chain_key
  advance-ratchet_at n h =
      let wrap : (n + 1) % 4294967296 ≡ suc n = omega arith in
      let free : (n == u32_max) ≡ false = ground arith in rw (free, wrap) refl

  advance-ratchet_at_end :
      advance mac (ratchet_at u32_max) ≡ (ratchet_at u32_max, err (generation_overflow u32_max))
  unfolding advance
  advance-ratchet_at_end = refl

  advance_while-ratchet_at :
      (fuel n target : ℕ) (last : Option MessageKey)
      → target ≡ n + fuel
      → target < u32_max
      → advance_while mac (suc fuel) target (ratchet_at n) last
        ≡ (ratchet_at (suc target), ok (some (key_at target)))
  unfolding advance_while next_round
  advance_while-ratchet_at zero n target last e h =
      let here : n ≡ target = omega arith in
      rw (leb_of_le n target (omega arith), advance-ratchet_at n (omega arith))
        (ap (λ k. (ratchet_at (suc k), ok (some (key_at k)))) here)
  advance_while-ratchet_at (suc fuel) n target last e h =
      rw (leb_of_le n target (omega arith), advance-ratchet_at n (omega arith))
        (advance_while-ratchet_at fuel (suc n) target (some (key_at n)) (omega arith) h)

  -- The last generation has no key: reaching for it spends every earlier key and fails.
  advance_while-ratchet_at_end :
      (fuel n : ℕ) (last : Option MessageKey)
      → u32_max ≡ n + fuel
      → advance_while mac (suc fuel) u32_max (ratchet_at n) last
        ≡ (ratchet_at u32_max, err (generation_overflow u32_max))
  unfolding advance_while next_round
  advance_while-ratchet_at_end zero n last e =
      let here : u32_max ≡ n = omega arith in rw (← here) (spent last)
    where
      spent :
          (last : Option MessageKey)
          → advance_while mac 1 u32_max (ratchet_at u32_max) last
            ≡ (ratchet_at u32_max, err (generation_overflow u32_max))
      spent last = rw (advance-ratchet_at_end) refl
  advance_while-ratchet_at_end (suc fuel) n last e =
      rw (leb_of_le n u32_max (omega arith), advance-ratchet_at n (omega arith))
        (advance_while-ratchet_at_end fuel (suc n) (some (key_at n)) (omega arith))

  -- What `advance_to` gives at a generation.
  abbrev pub reached : ℕ → ℕ → SymmetricRatchet × Result SenderKeyError MessageKey
  reached n target =
      if ltb target n
      then (ratchet_at n, err (ratchet_too_far_behind n target))
      else if ltb max_skip (target - n)
      then (ratchet_at n, err (ratchet_too_far_behind n target))
      else if target == u32_max
      then (ratchet_at u32_max, err (generation_overflow u32_max))
      else (ratchet_at (suc target), ok (key_at target))

  -- For a target of type u32, `advance_to` on the ratchet at generation n refuses targets before n
  -- and more than `max_skip` after it and stays where it is; for the last number of u32 it reports
  -- the overflow; for every other target it gives the key of that generation and moves past it.
  pub advance_to-ratchet_at :
      (n target : ℕ) → target ≤ u32_max → advance_to mac (ratchet_at n) target ≡ reached n target
  unfolding advance_to last_key
  advance_to-ratchet_at n target h = elim (Bool-cases (ltb target n)) [
    | inl behind ↦ rw behind refl
    | inr ahead ↦
        let le : n ≤ target = ground arith in
        let back : wrapping_sub target n ≡ target - n = omega arith in
        elim (Bool-cases (ltb max_skip (target - n))) [
          | inl far ↦ rw (ahead, back, far) refl
          | inr near ↦
              let rounds : suc target - n ≡ suc (target - n) = omega arith in
              elim (Bool-cases (target == u32_max)) [
                | inl last ↦
                    let end : target ≡ u32_max = ground arith in
                    rw (ahead, back, near, last, rounds, end)
                      (rw (advance_while-ratchet_at_end (u32_max - n) n none (omega arith)) refl)
                | inr early ↦
                    rw
                      (
                        ahead,
                        back,
                        near,
                        early,
                        rounds,
                        advance_while-ratchet_at (target - n) n target none (omega arith)
                            (ground arith),
                      )
                      refl
              ]
        ]
  ]
