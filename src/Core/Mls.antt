-- ===== src/Core/Mls.antt =====
-- crates/lockframe-core/src/mls/{group,error}.rs: a member's view of a group, with the commit that it has
-- sent and not yet seen accepted.
--
-- OpenMLS is a parameter: its group with the provider and the keys of the member. A call that
-- mutates returns the group after it. `seed` is the randomness that the environment hands out.
-- Texts stand as data.
pub mod Commits
pub mod Membership
use lockframe.Common.{
  ℕ, ◌-◌, List, [], ◌∷◌, ◌++◌, Bool, true, false, not, Option, none, some, is_some, ltb, leb, ◌==◌,
  if◌then◌else◌, Result, ok, err, ◌>>=◌, map_err, ok_or, length, take, Map, insert, contains,
  replicate, from_be_bytes,
}
use mathlib.Core.List.{reverse}
use lockframe.Proto.Opcode.{Opcode}
use lockframe.Proto.Header.{
  FrameHeader, signing_data, set_signature, set_room_id, set_sender_id, set_recipient_id,
}
use lockframe.Proto.Header
use lockframe.Proto.Frame.{Frame}
use lockframe.Proto.Frame
use lockframe.Proto.Payload.Types.{Text}
use lockframe.Core.GroupState.{MlsGroupState, with_keys}
use lockframe.Core.GroupState
use lockframe.Core.Validator.{Ed25519, Rejection, ValidationResult, accept, reject}
use lockframe.Core.Validator

-- The text of an error of OpenMLS, or one of the program's own.
pub data MlsText : Type 0 where
  library : MlsText
  no_pending_commit epoch_overflow no_members_given cannot_remove_self bad_tree_hash : MlsText
  member_unknown short_credential : ℕ → MlsText

-- The variants that the group produces; the others (`UnexpectedMessage`, `Timeout` and so on) are
-- never made by the code modelled here.
pub data MlsError : Type 0 where
  serialization crypto : MlsText → MlsError
  validation_failed : Rejection → MlsError

pub data LogText : Type 0 where
  created_group advanced_to joined_via_welcome joined_externally : ℕ → LogText
  received_proposal received_join_proposal : ℕ → LogText
  adding_members : ℕ → LogText
  removing_members : List ℕ → LogText
  leave_proposed : LogText

pub data MlsAction : Type 0 where
  send_proposal send_commit send_message : Frame → MlsAction
  send_welcome : ℕ → Frame → MlsAction
  deliver_message : ℕ → List ℕ → MlsAction
  remove_group : MlsAction
  publish_group_info : ℕ → ℕ → List ℕ → MlsAction
  log_line : LogText → MlsAction

pub record Member : Type 0 where
  pub index : ℕ
  pub identity : List ℕ
  pub signature_key : List ℕ

pub data Content : Type 0 where
  application : List ℕ → Content
  proposal external_proposal : Content
  staged_commit : List ℕ → Content

-- The serialized parts of a commit, each with the failure of its serialization.
pub record Bundle : Type 0 where
  pub commit : Result MlsError (List ℕ)
  pub welcome : Result MlsError (List ℕ)
  pub group_info : Result MlsError (List ℕ)

pub record OpenMls (G P : Type 0) : Type 0 where
  pub create : ℕ → List ℕ → Result MlsError G
  pub epoch : G → ℕ
  pub own_leaf_index : G → ℕ
  pub members : G → List Member
  pub sign : G → List ℕ → Option (List ℕ)
  pub export_secret : G → Text → List ℕ → ℕ → Option (List ℕ)
  pub tree_hash : G → List ℕ
  pub export_group_info : G → Result MlsError (List ℕ)
  pub pending_commit : G → Bool
  pub clear_pending_commit : G → G × Result MlsError (Unit {0})
  pub merge_pending_commit : G → G × Result MlsError (Unit {0})
  pub process_message : G → List ℕ → G × Result MlsError (List ℕ × Content)
  pub merge_staged_commit : G → List ℕ → G × Result MlsError (Unit {0})
  pub is_active : G → Bool
  pub create_message : G → List ℕ → G × Result MlsError (List ℕ)
  pub key_package_identity : List ℕ → Result MlsError (List ℕ)
  pub add_members : G → List (List ℕ) → G × Result MlsError Bundle
  pub remove_members : G → List ℕ → G × Result MlsError Bundle
  pub leave_group : G → G × Result MlsError (List ℕ)
  pub key_package : ℕ → List ℕ → Result MlsError (List ℕ × List ℕ × P)
  pub join : P → List ℕ → Result MlsError G
  pub join_external : ℕ → List ℕ → List ℕ → Result MlsError (G × List ℕ)

pub record PendingCommit : Type 0 where
  pub target_epoch : ℕ
  pub sent_at : ℕ

pub record MlsGroup (G : Type 0) : Type 0 where
  pub room_id : ℕ
  pub member_id : ℕ
  pub inner_group : G
  pub pending_commit : Option PendingCommit

abbrev pub Outcome : Type 0 → Type 0
Outcome G = MlsGroup G × Result MlsError (List MlsAction)

abbrev pub from_le_bytes : List ℕ → ℕ
from_le_bytes bytes = from_be_bytes (reverse bytes)

unfoldable pub extract_member_id : List ℕ → Result MlsError ℕ
extract_member_id identity =
    if ltb (length identity) 8
    then err (crypto (short_credential (length identity)))
    else ok (from_le_bytes (take 8 identity))

-- The first member at a leaf whose credential can be read.
unfoldable pub member_at : List Member → ℕ → Option ℕ
member_at [] leaf_index = none
member_at (m ∷ members) leaf_index =
    let rest = member_at members leaf_index in
    if m.index == leaf_index
    then elim (extract_member_id m.identity) [ ok id ↦ some id | err e ↦ rest ]
    else rest

-- The leaf of the first member with an id.
unfoldable pub leaf_of : List Member → ℕ → Option ℕ
leaf_of [] target_id = none
leaf_of (m ∷ members) target_id =
    let rest = leaf_of members target_id in
    elim (extract_member_id m.identity) [
      | err e ↦ rest
      | ok id ↦ if id == target_id then some m.index else rest
    ]

unfoldable pub member_ids_to_leaf_indices : List Member → List ℕ → Result MlsError (List ℕ)
member_ids_to_leaf_indices members [] = ok []
member_ids_to_leaf_indices members (target_id ∷ target_ids) = do
  index ← ok_or (leaf_of members target_id) (crypto (member_unknown target_id))
  indices ← member_ids_to_leaf_indices members target_ids
  ok (index ∷ indices)

-- The members' ids, and the keys of those with a key of 32 bytes or more.
unfoldable pub listed : List Member → List ℕ → Map (List ℕ) → List ℕ × Map (List ℕ)
listed [] ids keys = (ids, keys)
listed (m ∷ members) ids keys =
    let id = from_le_bytes (take 8 m.identity) in
    let short = ltb (length m.identity) 8 in
    listed members (if short then ids else ids ++ id ∷ []) (
      if short
      then keys
      else if ltb (length m.signature_key) 32
      then keys
      else insert id (take 32 m.signature_key) keys)

abbrev pub u64_max : ℕ
u64_max = 18446744073709551615

-- A frame of the group: the room and the sender in the header.
unfoldable pub group_frame : {G : Type 0} → MlsGroup G → Opcode → List ℕ → Frame
group_frame g code payload =
    Frame.new (set_sender_id (set_room_id (Header.new code) g.room_id) g.member_id) payload

unfoldable pub has_pending_commit : {G : Type 0} → MlsGroup G → Bool
has_pending_commit g = is_some g.pending_commit

timed_out : Option PendingCommit → ℕ → ℕ → Bool
timed_out none now timeout = false
timed_out (some pending) now timeout =
    if leb pending.sent_at now then leb timeout (now - pending.sent_at) else false

unfoldable pub is_commit_timeout : {G : Type 0} → MlsGroup G → ℕ → ℕ → Bool
unfolding timed_out
is_commit_timeout g now timeout = timed_out g.pending_commit now timeout
