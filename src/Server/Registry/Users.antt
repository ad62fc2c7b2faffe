-- ===== src/Server/Registry/Users.antt =====
-- The index from users to sessions is the inverse of the sessions' user ids, so that a user has
-- one session at most (crates/lockframe-server/src/registry.rs).
use lockframe.Common.{
  ℕ, ◌≡◌, refl, false, Option, none, some, Option-cases, Bool-cases, inl, inr, arith, Map, lookup,
  insert, remove, contains_key, lookup-insert, lookup-remove,
}
use lockframe.Server.Registry.{
  ConnectionRegistry, SessionInfo, register_session, register_new, unregister_session, without_user,
  with_user, update_session_info, taken_by_other, subscribe, unsubscribe,
}

abbrev user_in : Option SessionInfo → Option ℕ
user_in none = none
user_in (some info) = info.user_id

-- The user of a session.
abbrev pub user_of : ℕ → Map SessionInfo → Option ℕ
user_of s sessions = user_in (lookup s sessions)

pub record IsIndexed (g : ConnectionRegistry) : Type 0 where
  pub indexed : (u s : ℕ) → lookup u g.user_sessions ≡ some s → user_of s g.sessions ≡ some u
  pub found : (u s : ℕ) → user_of s g.sessions ≡ some u → lookup u g.user_sessions ≡ some s

module _ (g : ConnectionRegistry) (c : IsIndexed g) where
  register_new-IsIndexed :
      (s : ℕ) (info : SessionInfo) (user : Option ℕ)
      → info.user_id ≡ user
      → contains_key s g.sessions ≡ false
      → IsIndexed (register_new g s info user).0
  unfolding register_new
  register_new-IsIndexed s info none e fresh = record {
    indexed = λ u s' h. ground (arith, c.indexed u s', lookup-insert s s' info g.sessions);
    found = λ u s' h. ground (arith, c.found u s', lookup-insert s s' info g.sessions);
  }
  register_new-IsIndexed s info (some v) e fresh = record {
    indexed = λ u s' h. ground (
      arith,
      c.indexed u s',
      lookup-insert s s' info g.sessions,
      lookup-insert v u s g.user_sessions,
    );
    found = λ u s' h. ground (
      arith,
      c.found u s',
      lookup-insert s s' info g.sessions,
      lookup-insert v u s g.user_sessions,
    );
  }

  pub register-IsIndexed : (s : ℕ) (info : SessionInfo) → IsIndexed (register_session g s info).0
  unfolding register_session
  register-IsIndexed s info = elim (Bool-cases (contains_key s g.sessions)) [
    | inl old ↦ rw old c
    | inr fresh ↦ rw fresh (register_new-IsIndexed s info info.user_id refl fresh)
  ]

  pub subscribe-IsIndexed : (s r : ℕ) → IsIndexed (subscribe g s r).0
  unfolding subscribe
  subscribe-IsIndexed s r = elim (Bool-cases (contains_key s g.sessions)) [
    | inl known ↦ rw known (record { indexed = c.indexed; found = c.found })
    | inr unknown ↦ rw unknown c
  ]

  pub unsubscribe-IsIndexed : (s r : ℕ) → IsIndexed (unsubscribe g s r).0
  unfolding unsubscribe
  unsubscribe-IsIndexed s r = record { indexed = c.indexed; found = c.found }

  unregister_from :
      (s : ℕ) (old : Option ℕ)
      → user_of s g.sessions ≡ old
      → (u s' : ℕ)
      → (lookup u (without_user old g.user_sessions) ≡ some s'
          → user_of s' (remove s g.sessions) ≡ some u)
        × (user_of s' (remove s g.sessions) ≡ some u
            → lookup u (without_user old g.user_sessions) ≡ some s')
  unregister_from s none e u s' = (
    (λ h. ground (arith, e, c.indexed u s', lookup-remove s s' g.sessions)),
    (λ h. ground (arith, e, c.found u s', lookup-remove s s' g.sessions)),
  )
  unregister_from s (some v) e u s' = (
    (λ h. ground (
      arith,
      e,
      c.indexed u s',
      c.found v s,
      c.found u s',
      lookup-remove v u g.user_sessions,
      lookup-remove s s' g.sessions,
    )),
    (λ h. ground (
      arith,
      e,
      c.indexed u s',
      c.found v s,
      c.found u s',
      c.found u s,
      lookup-remove v u g.user_sessions,
      lookup-remove s s' g.sessions,
    )),
  )

  pub unregister-IsIndexed : (s : ℕ) → IsIndexed (unregister_session g s).0
  unfolding unregister_session
  unregister-IsIndexed s = elim (Option-cases (lookup s g.sessions)) [
    | inl e ↦ rw (e, unregister_session) c
    | inr (info, e) ↦
        let user : user_of s g.sessions ≡ info.user_id = rw e refl in
        rw (e, unregister_session)
          (record {
            indexed = λ u s' h. (unregister_from s info.user_id user u s').0 h;
            found = λ u s' h. (unregister_from s info.user_id user u s').1 h;
          })
  ]

  moved_to :
      (s : ℕ) (old : Option ℕ) (info : SessionInfo) (next : Option ℕ)
      → user_of s g.sessions ≡ old
      → info.user_id ≡ next
      → taken_by_other g old next ≡ false
      → (u s' : ℕ)
      → (lookup u (with_user s next (without_user old g.user_sessions)) ≡ some s'
          → user_of s' (insert s info g.sessions) ≡ some u)
        × (user_of s' (insert s info g.sessions) ≡ some u
            → lookup u (with_user s next (without_user old g.user_sessions)) ≡ some s')
  unfolding taken_by_other
  moved_to s none info none e e' free u s' = (
    (λ h. ground (arith, e, c.indexed u s', lookup-insert s s' info g.sessions)),
    (λ h. ground (arith, e, c.found u s', lookup-insert s s' info g.sessions)),
  )
  moved_to s (some v) info none e e' free u s' = (
    (λ h. ground (
      arith,
      e,
      c.indexed u s',
      c.found v s,
      lookup-remove v u g.user_sessions,
      lookup-insert s s' info g.sessions,
    )),
    (λ h. ground (
      arith,
      e,
      c.indexed v s',
      c.found u s',
      c.found v s,
      c.found u s,
      lookup-remove v u g.user_sessions,
      lookup-insert s s' info g.sessions,
    )),
  )
  moved_to s none info (some w) e e' free u s' = (
    (λ h. ground (
      arith,
      e,
      c.indexed u s',
      lookup-insert w u s g.user_sessions,
      lookup-insert s s' info g.sessions,
    )),
    (λ h. ground (
      arith,
      e,
      c.found u s',
      lookup-insert w u s g.user_sessions,
      lookup-insert s s' info g.sessions,
    )),
  )
  moved_to s (some v) info (some w) e e' free u s' = (
    (λ h. ground (
      arith,
      e,
      c.indexed u s',
      c.found v s,
      lookup-remove v u g.user_sessions,
      lookup-insert w u s (remove v g.user_sessions),
      lookup-insert s s' info g.sessions,
    )),
    (λ h. ground (
      arith,
      e,
      c.found u s',
      c.found v s,
      lookup-remove v u g.user_sessions,
      lookup-insert w u s (remove v g.user_sessions),
      lookup-insert s s' info g.sessions,
    )),
  )

  pub update-IsIndexed : (s : ℕ) (info : SessionInfo) → IsIndexed (update_session_info g s info).0
  unfolding update_session_info
  update-IsIndexed s info = elim (Option-cases (lookup s g.sessions)) [
    | inl e ↦ rw (e, update_session_info) c
    | inr (old, e) ↦ elim (Bool-cases (taken_by_other g old.user_id info.user_id)) [
      | inl taken ↦ rw (e, update_session_info) (rw taken c)
      | inr free ↦
          let user : user_of s g.sessions ≡ old.user_id = rw e refl in
          rw (e, update_session_info)
            (rw free (record {
              indexed =
                  λ u s' h. (moved_to s old.user_id info info.user_id user refl free u s').0 h;
              found = λ u s' h. (moved_to s old.user_id info info.user_id user refl free u s').1 h;
            }))
    ]
  ]
