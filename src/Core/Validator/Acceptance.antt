-- ===== src/Core/Validator/Acceptance.antt =====
-- Which frames the validator accepts (crates/lockframe-core/src/mls/validator.rs).
use lockframe.Common.{ℕ, ◌≡◌, ◌↔◌, refl, ap, ◌∙◌, List, true, Option, none, some, arith}
use lockframe.Proto.Header as Header
use lockframe.Proto.Header.{signing_data}
use lockframe.Proto.Frame.{Frame}
use lockframe.Core.GroupState.{MlsGroupState, is_member, member_key}
use lockframe.Core.Validator.{
  Ed25519, accept, validate_frame, validate_signature, check_key, check_signed,
}

-- The signature of a frame verifies under the key that the group state has for its sender.
abbrev pub IsSigned : Ed25519 → Frame → MlsGroupState → Type 0
IsSigned ed f g =
    (key : List ℕ) × (signature : List ℕ) × (member_key ed.key_from_bytes g
        (Header.sender_id f.header)
      ≡ some key)
    × (ed.signature_from_slice f.header.signature ≡ some signature)
    × (ed.verify key (signing_data f.header) signature ≡ true)

check_signed-accept :
    (ed : Ed25519) (f : Frame) (key : List ℕ) (signature : Option (List ℕ))
    → check_signed ed f key signature ≡ accept
    → (s : List ℕ) × (signature ≡ some s) × (ed.verify key (signing_data f.header) s ≡ true)
unfolding check_signed
check_signed-accept ed f key none h = cc h
check_signed-accept ed f key (some s) h = (s, refl, ground (arith, h))

check_key-accept :
    (ed : Ed25519) (f : Frame) (key : Option (List ℕ))
    → check_key ed f key ≡ accept
    → (k : List ℕ) × (s : List ℕ) × (key ≡ some k)
      × (ed.signature_from_slice f.header.signature ≡ some s)
      × (ed.verify k (signing_data f.header) s ≡ true)
unfolding check_key
check_key-accept ed f none h = cc h
check_key-accept ed f (some k) h =
    let (s, e, v) = check_signed-accept ed f k (ed.signature_from_slice f.header.signature) h in
    (k, s, refl, e, v)

-- A frame is accepted if and only if it is of the current epoch, its sender is in the group, and
-- its signature verifies under the key that the group state has for the sender.
pub validate_frame-accept_iff :
    (ed : Ed25519) (f : Frame) (epoch : ℕ) (g : MlsGroupState)
    → (validate_frame ed f epoch g ≡ accept) ↔ (
        (Header.epoch f.header ≡ epoch)
        × (is_member g (Header.sender_id f.header) ≡ true)
        × IsSigned ed f g)
unfolding validate_frame validate_signature check_key check_signed
validate_frame-accept_iff ed f epoch g = (
  (λ h. (
    ground (arith, h),
    ground (arith, h),
    check_key-accept ed f (member_key ed.key_from_bytes g (Header.sender_id f.header))
        (ground (arith, h)),
  )),
  (λ h. let (now, member, (key, signature, e, e', v)) = h in ground (arith, now, member, e, e', v)),
)

-- The parts of a frame that the validator looks at.
pub record Agree (f g : Frame) : Type 0 where
  pub epoch : Header.epoch f.header ≡ Header.epoch g.header
  pub sender_id : Header.sender_id f.header ≡ Header.sender_id g.header
  pub signature : f.header.signature ≡ g.header.signature
  pub signed : signing_data f.header ≡ signing_data g.header

check_signed-Agree :
    (ed : Ed25519) (f g : Frame) (key : List ℕ) (signature : Option (List ℕ))
    → Agree f g
    → check_signed ed f key signature ≡ check_signed ed g key signature
unfolding check_signed
check_signed-Agree ed f g key none a = refl
check_signed-Agree ed f g key (some s) a = rw (a.signed, a.sender_id) refl

check_key-Agree :
    (ed : Ed25519) (f g : Frame) (key : Option (List ℕ))
    → Agree f g
    → check_key ed f key ≡ check_key ed g key
unfolding check_key
check_key-Agree ed f g none a = rw a.sender_id refl
check_key-Agree ed f g (some k) a =
    ap (λ s. check_signed ed f k (ed.signature_from_slice s)) a.signature
    ∙ check_signed-Agree ed f g k (ed.signature_from_slice g.header.signature) a

validate_signature-Agree :
    (ed : Ed25519) (f g : Frame) (state : MlsGroupState)
    → Agree f g
    → validate_signature ed f state ≡ validate_signature ed g state
unfolding validate_signature
validate_signature-Agree ed f g state a =
    ap (λ s. check_key ed f (member_key ed.key_from_bytes state s)) a.sender_id
    ∙ check_key-Agree ed f g (member_key ed.key_from_bytes state (Header.sender_id g.header)) a

pub validate_frame-Agree :
    (ed : Ed25519) (f g : Frame) (epoch : ℕ) (state : MlsGroupState)
    → Agree f g
    → validate_frame ed f epoch state ≡ validate_frame ed g epoch state
unfolding validate_frame
validate_frame-Agree ed f g epoch state a =
    rw (a.epoch, a.sender_id, validate_signature-Agree ed f g state a) refl
