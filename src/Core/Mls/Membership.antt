-- ===== src/Core/Mls/Membership.antt =====
-- Creating and joining groups, and what a member exports of its group
-- (crates/lockframe-core/src/mls/group.rs).
use lockframe.Common.{
  ℕ, List, [], ◌∷◌, replicate, Option, none, some, ◌==◌, if◌then◌else◌, Result, ok, err, ◌>>=◌,
  ok_or, length, map,
}
use mathlib.Core.List.{reverse}
use lockframe.Common.{to_be_bytes}
use lockframe.Proto.Opcode.{Opcode}
use lockframe.Proto.Header.{FrameHeader, signing_data, set_signature}
use lockframe.Proto.Frame.{Frame}
use lockframe.Proto.Payload.Types.{Text}
use lockframe.Core.GroupState.{MlsGroupState, with_keys}
use lockframe.Core.GroupState
use lockframe.Core.Validator.{Ed25519, ValidationResult, accept, reject}
use lockframe.Core.Validator
use lockframe.Core.Mls.{
  OpenMls, MlsGroup, MlsAction, MlsError, crypto, library, bad_tree_hash, validation_failed,
  publish_group_info, log_line, send_commit, send_message, created_group, joined_via_welcome,
  joined_externally, group_frame, member_at, listed,
}

-- `member_id.to_le_bytes()`
abbrev pub credential : ℕ → List ℕ
credential member_id = reverse (to_be_bytes 8 member_id)

abbrev pub group_state_label : Text
group_state_label = b'g' ∷ b'r' ∷ b'o' ∷ b'u' ∷ b'p' ∷ b'_' ∷ b's' ∷ b't' ∷ b'a' ∷ b't' ∷ b'e' ∷ []

module _ {G P : Type 0} (mls : OpenMls G P) where
  abbrev joined : ℕ → ℕ → G → MlsGroup G
  joined room_id member_id inner = record {
    room_id = room_id;
    member_id = member_id;
    inner_group = inner;
    pending_commit = none;
  }

  unfoldable pub epoch : MlsGroup G → ℕ
  epoch g = mls.epoch g.inner_group

  unfoldable pub own_leaf_index : MlsGroup G → ℕ
  own_leaf_index g = mls.own_leaf_index g.inner_group

  unfoldable pub member_leaf_indices : MlsGroup G → List ℕ
  member_leaf_indices g = map (λ m. m.index) (mls.members g.inner_group)

  unfoldable pub member_id_by_leaf_index : MlsGroup G → ℕ → Option ℕ
  member_id_by_leaf_index g leaf_index = member_at (mls.members g.inner_group) leaf_index

  signed : FrameHeader → Option (List ℕ) → FrameHeader
  signed header none = header
  signed header (some signature) =
      if length signature == 64 then set_signature header signature else header

  -- A failed signature leaves the header as it is.
  unfoldable pub sign_frame_header : MlsGroup G → FrameHeader → FrameHeader
  unfolding signed
  sign_frame_header g header = signed header (mls.sign g.inner_group (signing_data header))

  unfoldable pub export_secret : MlsGroup G → Text → List ℕ → ℕ → Result MlsError (List ℕ)
  export_secret g label context size =
      ok_or (mls.export_secret g.inner_group label context size) (crypto library)

  unfoldable pub export_state : MlsGroup G → Result MlsError (List ℕ)
  export_state g = export_secret g group_state_label [] 64

  unfoldable pub export_group_info : MlsGroup G → Result MlsError (List ℕ)
  export_group_info g = mls.export_group_info g.inner_group

  unfoldable pub export_group_state : MlsGroup G → Result MlsError MlsGroupState
  export_group_state g =
      let (members, member_keys) = listed (mls.members g.inner_group) [] [] in
      let tree_hash = mls.tree_hash g.inner_group in
      if length tree_hash == 32
      then ok (with_keys g.room_id (epoch g) tree_hash members member_keys)
      else err (crypto bad_tree_hash)

  unfoldable pub export_validation_state : MlsGroup G → MlsGroupState
  export_validation_state g = elim (export_group_state g) [
    | ok state ↦ state
    | err e ↦ GroupState.new g.room_id (epoch g) (replicate 32 0) []
  ]

  validated : ValidationResult → Result MlsError (Unit {0})
  validated accept = ok tt
  validated (reject reason) = err (validation_failed reason)

  unfoldable pub validate_frame :
      Ed25519 → MlsGroup G → Frame → Option MlsGroupState → Result MlsError (Unit {0})
  unfolding validated
  validate_frame ed g frame (some state) =
      validated (Validator.validate_frame ed frame (epoch g) state)
  validate_frame ed g frame none = validated (Validator.validate_frame_no_state frame)

  unfoldable pub new : ℕ → ℕ → ℕ → Result MlsError (MlsGroup G × List MlsAction)
  new seed room_id member_id = do
    inner ← mls.create seed (credential member_id)
    group_info_bytes ← mls.export_group_info inner
    ok (
      joined room_id member_id inner,
      publish_group_info room_id 0 group_info_bytes ∷ log_line (created_group room_id) ∷ [],
    )

  unfoldable pub generate_key_package : ℕ → ℕ → Result MlsError (List ℕ × List ℕ × P)
  generate_key_package seed member_id = mls.key_package seed (credential member_id)

  unfoldable pub join_from_welcome :
      ℕ → ℕ → List ℕ → P → Result MlsError (MlsGroup G × List MlsAction)
  join_from_welcome room_id member_id welcome_bytes pending_state = do
    inner ← mls.join pending_state welcome_bytes
    ok (joined room_id member_id inner, log_line (joined_via_welcome (mls.epoch inner)) ∷ [])

  unfoldable pub join_from_external :
      ℕ → ℕ → ℕ → List ℕ → Result MlsError (MlsGroup G × List MlsAction)
  join_from_external seed room_id member_id group_info_bytes = do
    built ← mls.join_external seed (credential member_id) group_info_bytes
    published ← mls.export_group_info built.0
    ok (
      joined room_id member_id built.0,
      send_commit (group_frame (joined room_id member_id built.0) Opcode.external_commit built.1)
          ∷ publish_group_info room_id (mls.epoch built.0) published
          ∷ log_line (joined_externally (mls.epoch built.0))
          ∷ [],
    )

  unfoldable pub create_message :
      MlsGroup G → List ℕ → MlsGroup G × Result MlsError (List MlsAction)
  create_message g plaintext =
      let (inner, result) = mls.create_message g.inner_group plaintext in
      (
        record g { inner_group = inner },
        result >>= λ payload. ok (send_message (group_frame g Opcode.app_message payload) ∷ []),
      )
