-- ===== src/Core/Validator.antt =====
-- crates/lockframe-core/src/mls/validator.rs: the checks of a frame against a group state.
--
-- Ed25519 is a parameter: the parsing of keys and of signatures, and the verification. The texts of
-- rejections stand as data.
pub mod Acceptance
use lockframe.Common.{ℕ, List, Bool, not, Option, none, some, ◌==◌, if◌then◌else◌}
use lockframe.Proto.Header as Header
use lockframe.Proto.Header.{signing_data}
use lockframe.Proto.Frame.{Frame}
use lockframe.Core.GroupState.{MlsGroupState, is_member, member_key}

pub record Ed25519 : Type 0 where
  pub key_from_bytes : List ℕ → Option (List ℕ)
  pub signature_from_slice : List ℕ → Option (List ℕ)
  pub verify : (key message signature : List ℕ) → Bool

pub data Rejection : Type 0 where
  epoch_mismatch : (expected got : ℕ) → Rejection
  not_in_group no_signature_key verification_failed : (sender_id : ℕ) → Rejection
  invalid_signature_format : Rejection
  no_mls_state : (got : ℕ) → Rejection

pub data ValidationResult : Type 0 where
  accept : ValidationResult
  reject : Rejection → ValidationResult

module _ (ed : Ed25519) where
  check_signed : Frame → List ℕ → Option (List ℕ) → ValidationResult
  check_signed frame key none = reject invalid_signature_format
  check_signed frame key (some signature) =
      if not (ed.verify key (signing_data frame.header) signature)
      then reject (verification_failed (Header.sender_id frame.header))
      else accept

  check_key : Frame → Option (List ℕ) → ValidationResult
  unfolding check_signed
  check_key frame none = reject (no_signature_key (Header.sender_id frame.header))
  check_key frame (some key) =
      check_signed frame key (ed.signature_from_slice frame.header.signature)

  unfoldable pub validate_signature : Frame → MlsGroupState → ValidationResult
  unfolding check_key
  validate_signature frame group_state =
      check_key frame (member_key ed.key_from_bytes group_state (Header.sender_id frame.header))

  unfoldable pub validate_frame : Frame → ℕ → MlsGroupState → ValidationResult
  validate_frame frame current_epoch group_state =
      if not (Header.epoch frame.header == current_epoch)
      then reject (epoch_mismatch current_epoch (Header.epoch frame.header))
      else if not (is_member group_state (Header.sender_id frame.header))
      then reject (not_in_group (Header.sender_id frame.header))
      else validate_signature frame group_state

unfoldable pub validate_frame_no_state : Frame → ValidationResult
validate_frame_no_state frame =
    if not (Header.epoch frame.header == 0)
    then reject (no_mls_state (Header.epoch frame.header))
    else accept
