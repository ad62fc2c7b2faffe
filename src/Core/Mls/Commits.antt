-- ===== src/Core/Mls/Commits.antt =====
-- Commits: those a member sends, and those it gets (crates/lockframe-core/src/mls/group.rs).
use lockframe.Common.{
  ℕ, ◌+◌, List, [], ◌∷◌, ◌++◌, Bool, none, some, ltb, if◌then◌else◌, Result, ok, err, ◌>>=◌, length,
  contains, is_empty,
}
use lockframe.Proto.Opcode.{Opcode}
use lockframe.Proto.Header.{set_room_id, set_sender_id, set_recipient_id}
use lockframe.Proto.Header
use lockframe.Proto.Frame.{Frame}
use lockframe.Proto.Frame
use lockframe.Core.Mls.{
  OpenMls, MlsGroup, MlsAction, MlsError, Outcome, Bundle, Content, application, proposal,
  external_proposal, staged_commit, crypto, no_pending_commit, epoch_overflow, no_members_given,
  cannot_remove_self, send_proposal, send_commit, send_welcome, deliver_message, remove_group,
  publish_group_info, log_line, advanced_to, received_proposal, received_join_proposal,
  adding_members, removing_members, leave_proposed, group_frame, extract_member_id,
  member_ids_to_leaf_indices, u64_max,
}

module _ {G P : Type 0} (mls : OpenMls G P) where
  -- The pending commit is dropped also if OpenMLS fails to drop its own.
  unfoldable pub clear_pending_commit : MlsGroup G → MlsGroup G × Result MlsError (Unit {0})
  clear_pending_commit g =
      let (inner, result) = mls.clear_pending_commit g.inner_group in
      (record g { inner_group = inner; pending_commit = none }, result)

  unfoldable pub has_mls_pending_commit : MlsGroup G → Bool
  has_mls_pending_commit g = mls.pending_commit g.inner_group

  merged : MlsGroup G → G × Result MlsError (Unit {0}) → Outcome G
  merged g (inner, err e) = (record g { inner_group = inner }, err e)
  merged g (inner, ok _) = (
    record g { inner_group = inner; pending_commit = none },
    mls.export_group_info inner >>= λ group_info_bytes.
        ok (publish_group_info g.room_id (mls.epoch inner) group_info_bytes ∷ []),
  )

  unfoldable pub merge_pending_commit : MlsGroup G → Outcome G
  unfolding merged
  merge_pending_commit g = elim g.pending_commit [
    | none ↦ (g, err (crypto no_pending_commit))
    | some pending ↦ merged g (mls.merge_pending_commit g.inner_group)
  ]

  -- After a commit of another member: the new group info, or the end of the membership.
  advanced : MlsGroup G → G × Result MlsError (Unit {0}) → Outcome G
  advanced g (inner, err e) = (record g { inner_group = inner }, err e)
  advanced g (inner, ok _) = (
    record g { inner_group = inner },
    if mls.is_active inner
        then (mls.export_group_info inner >>= λ group_info_bytes. ok (
            log_line (advanced_to (mls.epoch inner))
            ∷ publish_group_info g.room_id (mls.epoch inner) group_info_bytes
            ∷ []))
        else ok (log_line (advanced_to (mls.epoch inner)) ∷ remove_group ∷ []),
  )

  content : MlsGroup G → G → ℕ → Content → Outcome G
  unfolding advanced
  content g inner sender (application plaintext) =
      (record g { inner_group = inner }, ok (deliver_message sender plaintext ∷ []))
  content g inner sender proposal =
      (record g { inner_group = inner }, ok (log_line (received_proposal (mls.epoch inner)) ∷ []))
  content g inner sender external_proposal = (
    record g { inner_group = inner },
    ok (log_line (received_join_proposal (mls.epoch inner)) ∷ []),
  )
  content g inner sender (staged_commit staged) = advanced g (mls.merge_staged_commit inner staged)

  sent_by : MlsGroup G → G → Content → Result MlsError ℕ → Outcome G
  unfolding content
  sent_by g inner c (err e) = (record g { inner_group = inner }, err e)
  sent_by g inner c (ok sender) = content g inner sender c

  processed : MlsGroup G → G × Result MlsError (List ℕ × Content) → Outcome G
  unfolding sent_by
  processed g (inner, err e) = (record g { inner_group = inner }, err e)
  processed g (inner, ok (identity, c)) = sent_by g inner c (extract_member_id identity)

  unfoldable pub process_message : MlsGroup G → Frame → Outcome G
  unfolding processed
  process_message g frame = processed g (mls.process_message g.inner_group frame.payload)

  -- A Welcome for each of the new members.
  unfoldable pub welcomes : MlsGroup G → List ℕ → List (List ℕ) → Result MlsError (List MlsAction)
  welcomes g payload [] = ok []
  welcomes g payload (identity ∷ identities) = do
    recipient ← extract_member_id identity
    rest ← welcomes g payload identities
    ok (
        send_welcome recipient (
          Frame.new
            (set_sender_id
              (set_room_id (set_recipient_id (Header.new Opcode.welcome) recipient) g.room_id)
              g.member_id)
            payload)
        ∷ rest)

  -- The actions of a commit that was made: what fails to serialize ends in an error, with the
  -- commit pending all the same.
  add_actions : MlsGroup G → ℕ → List (List ℕ) → Bundle → Result MlsError (List MlsAction)
  add_actions g target_epoch identities b = do
    group_info_bytes ← b.group_info
    commit_payload ← b.commit
    welcome_payload ← b.welcome
    invited ← welcomes g welcome_payload identities
    ok (
        (publish_group_info g.room_id target_epoch group_info_bytes
          ∷ send_commit (group_frame g Opcode.commit commit_payload)
          ∷ invited)
        ++ log_line (adding_members (length identities)) ∷ [])

  committed :
      MlsGroup G
      → ℕ
      → ℕ
      → (MlsGroup G → Bundle → Result MlsError (List MlsAction))
      → G × Result MlsError Bundle
      → Outcome G
  committed g now target_epoch actions (inner, err e) = (record g { inner_group = inner }, err e)
  committed g now target_epoch actions (inner, ok b) =
      let g' : MlsGroup G = record g {
        inner_group = inner;
        pending_commit = some (record { target_epoch = target_epoch; sent_at = now });
      } in
      (g', actions g' b)

  unfoldable pub identities_of : List (List ℕ) → Result MlsError (List (List ℕ))
  identities_of [] = ok []
  identities_of (bytes ∷ rest) = do
    identity ← mls.key_package_identity bytes
    identities ← identities_of rest
    ok (identity ∷ identities)

  add_members : MlsGroup G → ℕ → List (List ℕ) → Result MlsError (List (List ℕ)) → Outcome G
  unfolding committed add_actions
  add_members g now key_packages (err e) = (g, err e)
  add_members g now key_packages (ok identities) =
      let target_epoch = mls.epoch g.inner_group + 1 in
      if ltb u64_max target_epoch
      then (g, err (crypto epoch_overflow))
      else committed g now target_epoch (λ g' b. add_actions g' target_epoch identities b)
          (mls.add_members g.inner_group key_packages)

  unfoldable pub add_members_from_bytes : MlsGroup G → ℕ → List (List ℕ) → Outcome G
  unfolding add_members
  add_members_from_bytes g now key_packages =
      add_members g now key_packages (identities_of key_packages)

  remove_actions : MlsGroup G → ℕ → List ℕ → Bundle → Result MlsError (List MlsAction)
  remove_actions g target_epoch member_ids b = do
    group_info_bytes ← b.group_info
    commit_payload ← b.commit
    ok (
        publish_group_info g.room_id target_epoch group_info_bytes
        ∷ send_commit (group_frame g Opcode.commit commit_payload)
        ∷ log_line (removing_members member_ids)
        ∷ [])

  remove_leaves : MlsGroup G → ℕ → List ℕ → Result MlsError (List ℕ) → Outcome G
  unfolding committed remove_actions
  remove_leaves g now member_ids (err e) = (g, err e)
  remove_leaves g now member_ids (ok leaf_indices) =
      let target_epoch = mls.epoch g.inner_group + 1 in
      committed g now target_epoch (λ g' b. remove_actions g' target_epoch member_ids b)
        (mls.remove_members g.inner_group leaf_indices)

  unfoldable pub remove_members : MlsGroup G → ℕ → List ℕ → Outcome G
  unfolding remove_leaves
  remove_members g now member_ids =
      if is_empty member_ids
      then (g, err (crypto no_members_given))
      else if contains g.member_id member_ids
      then (g, err (crypto cannot_remove_self))
      else if ltb u64_max (mls.epoch g.inner_group + 1)
      then (g, err (crypto epoch_overflow))
      else remove_leaves g now member_ids
          (member_ids_to_leaf_indices (mls.members g.inner_group) member_ids)

  unfoldable pub leave_group : MlsGroup G → Outcome G
  leave_group g =
      let (inner, result) = mls.leave_group g.inner_group in
      (
        record g { inner_group = inner },
        result >>= λ payload.
            ok (
              send_proposal (group_frame g Opcode.proposal payload) ∷ log_line leave_proposed ∷ []),
      )
