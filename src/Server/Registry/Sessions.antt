-- ===== src/Server/Registry/Sessions.antt =====
-- What each call does to the sessions alone (crates/lockframe-server/src/registry.rs).
use lockframe.Common.{
  ℕ, ◌≡◌, ◌⊎◌, true, false, none, some, arith, ◌==◌, if◌then◌else◌, lookup, contains_key,
  lookup-insert, lookup-remove,
}
use lockframe.Server.Registry.{
  ConnectionRegistry, SessionInfo, new_info, register_session, register_new, unregister_session,
  update_session_info, subscribe,
}
use lockframe.Server.Registry.Users.{user_of}

module _ (g : ConnectionRegistry) (s : ℕ) where
  pub subscribe-sessions : (r : ℕ) → (subscribe g s r).0.sessions ≡ g.sessions
  unfolding subscribe
  subscribe-sessions r = ground arith

  pub contains_key-register :
      (s' : ℕ)
      → contains_key s' (register_session g s new_info).0.sessions
        ≡ (if s == s' then true else contains_key s' g.sessions)
  unfolding register_session register_new new_info
  contains_key-register s' = ground (arith, lookup-insert s s' new_info g.sessions)

  -- A new session has no user.
  pub user_of-register :
      (s' : ℕ) → user_of s' (register_session g s new_info).0.sessions ≡ user_of s' g.sessions
  unfolding register_session register_new new_info
  user_of-register s' = ground (arith, lookup-insert s s' new_info g.sessions)

  pub contains_key-update :
      (info : SessionInfo) (s' : ℕ)
      → contains_key s' (update_session_info g s info).0.sessions ≡ contains_key s' g.sessions
  unfolding update_session_info
  contains_key-update info s' = ground (arith, lookup-insert s s' info g.sessions)

  pub user_of-update :
      (info : SessionInfo) (s' : ℕ)
      → (s == s') ≡ false
      → user_of s' (update_session_info g s info).0.sessions ≡ user_of s' g.sessions
  unfolding update_session_info
  user_of-update info s' n = ground (arith, lookup-insert s s' info g.sessions)

  -- The user of an updated session is the given one, or the one it had.
  pub user_of-update_own :
      (info : SessionInfo) (u : ℕ)
      → user_of s (update_session_info g s info).0.sessions ≡ some u
      → (info.user_id ≡ some u) ⊎ (user_of s g.sessions ≡ some u)
  unfolding update_session_info
  user_of-update_own info u h = ground (arith, lookup-insert s s info g.sessions, h)

  pub lookup-unregister :
      (s' : ℕ)
      → lookup s' (unregister_session g s).0.sessions
        ≡ (if s == s' then none else lookup s' g.sessions)
  unfolding unregister_session
  lookup-unregister s' = ground (arith, lookup-remove s s' g.sessions)
