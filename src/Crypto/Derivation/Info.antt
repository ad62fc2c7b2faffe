-- ===== src/Crypto/Derivation/Info.antt =====
-- Seeds of different epochs or senders come from different inputs
-- (crates/lockframe-crypto/src/sender_keys/derivation.rs).
use lockframe.Common.{
  ℕ, ◌≡◌, ◌<◌, ◌^◌, ap, drop, to_be_bytes, to_be_bytes-append-injective, to_be_bytes-injective,
}
use lockframe.Crypto.Derivation.{info}

-- The info strings of two epochs (of 8 bytes) and sender indices (of 4) are the same only if the
-- epochs and the indices are.
info-injective :
    (epoch epoch' sender sender' : ℕ)
    → epoch < 256 ^ 8
    → epoch' < 256 ^ 8
    → sender < 256 ^ 4
    → sender' < 256 ^ 4
    → info epoch sender ≡ info epoch' sender'
    → (epoch ≡ epoch') × (sender ≡ sender')
unfolding info
info-injective epoch epoch' sender sender' p p' q q' e =
    let (same, rest) =
      to_be_bytes-append-injective 8 epoch epoch' (to_be_bytes 4 sender) (to_be_bytes 4 sender') p
        p' (ap (drop 17) e) in
    (same, to_be_bytes-injective 4 sender sender' q q' rest)
