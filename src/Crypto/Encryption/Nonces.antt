-- ===== src/Crypto/Encryption/Nonces.antt =====
-- Nonces tell the messages of a room apart
-- (crates/lockframe-crypto/src/sender_keys/encryption.rs).
use lockframe.Common.{ℕ, ◌≡◌, ◌<◌, ◌^◌, List, to_be_bytes-append-injective}
use lockframe.Crypto.Encryption.{build_nonce}

-- Two nonces are the same only if the epoch (of 8 bytes), the sender's index (of 4), the
-- generation (of 4) and the random suffix are.
pub build_nonce-injective :
    (epoch epoch' sender sender' generation generation' : ℕ) (suffix suffix' : List ℕ)
    → epoch < 256 ^ 8
    → epoch' < 256 ^ 8
    → sender < 256 ^ 4
    → sender' < 256 ^ 4
    → generation < 256 ^ 4
    → generation' < 256 ^ 4
    → build_nonce epoch sender generation suffix ≡ build_nonce epoch' sender' generation' suffix'
    → (epoch ≡ epoch') × (sender ≡ sender') × (generation ≡ generation') × (suffix ≡ suffix')
unfolding build_nonce
build_nonce-injective epoch epoch' sender sender' generation generation' suffix suffix' p p' q q' r
      r' e =
    let (a, e1) = to_be_bytes-append-injective 8 epoch epoch' _ _ p p' e in
    let (b, e2) = to_be_bytes-append-injective 4 sender sender' _ _ q q' e1 in
    let (c, d) = to_be_bytes-append-injective 4 generation generation' suffix suffix' r r' e2 in
    (a, b, c, d)
