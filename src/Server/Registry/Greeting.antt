-- ===== src/Server/Registry/Greeting.antt =====
-- A session that gets a user (crates/lockframe-server/src/registry.rs).
use lockframe.Common.{
  ℕ, ◌≡◌, none, some, true, arith, ◌==◌, if◌then◌else◌, contains_key, lookup-insert,
}
use lockframe.Server.Registry.{
  ConnectionRegistry, update_session_info, taken_by_other, session_id_for_user, authenticated,
}
use lockframe.Server.Registry.Users.{user_of}

-- A session without a user gets one that is free, and no other user changes its session.
pub update_session_info-finds :
    (g : ConnectionRegistry) (s u v : ℕ)
    → contains_key s g.sessions ≡ true
    → user_of s g.sessions ≡ none
    → session_id_for_user g u ≡ none
    → session_id_for_user (update_session_info g s (authenticated u)).0 v
      ≡ (if u == v then some s else session_id_for_user g v)
unfolding update_session_info session_id_for_user taken_by_other authenticated
update_session_info-finds g s u v known anonymous free =
    ground (arith, lookup-insert u v s g.user_sessions)
