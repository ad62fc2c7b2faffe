-- ===== src/Server/Registry/Calls.antt =====
-- Any sequence of calls on a connection registry (crates/lockframe-server/src/registry.rs).
use lockframe.Common.{
  ℕ, ◌≡◌, refl, List, [], ◌∷◌, false, some, ◌==◌, if◌then◌else◌, arith, contains, lookup,
}
use lockframe.Server.Registry.{
  ConnectionRegistry, SessionInfo, new, register_session, unregister_session, update_session_info,
  subscribe, unsubscribe, is_subscribed,
}
use lockframe.Server.Registry.Subscriptions.{
  IsMirrored, register-IsMirrored, unregister-IsMirrored, update-IsMirrored, subscribe-IsMirrored,
  unsubscribe-IsMirrored, unregister_from,
}
use lockframe.Server.Registry.Users.{
  IsIndexed, user_of, register-IsIndexed, unregister-IsIndexed, update-IsIndexed,
  subscribe-IsIndexed, unsubscribe-IsIndexed,
}

pub data Call : Type 0 where
  register : ℕ → SessionInfo → Call
  unregister : ℕ → Call
  update : ℕ → SessionInfo → Call
  join : ℕ → ℕ → Call
  leave : ℕ → ℕ → Call

unfoldable pub step : ConnectionRegistry → Call → ConnectionRegistry
step g (register s info) = (register_session g s info).0
step g (unregister s) = (unregister_session g s).0
step g (update s info) = (update_session_info g s info).0
step g (join s r) = (subscribe g s r).0
step g (leave s r) = (unsubscribe g s r).0

unfoldable pub run : ConnectionRegistry → List Call → ConnectionRegistry
run g [] = g
run g (call ∷ calls) = run (step g call) calls

abbrev pub IsConsistent : ConnectionRegistry → Type 0
IsConsistent g = IsMirrored g × IsIndexed g

pub new-IsConsistent : IsConsistent new
unfolding new lookup contains
new-IsConsistent = (
  record { mirrored = λ s r. refl; registered = λ s. refl },
  record { indexed = λ u s h. ground (arith, h); found = λ u s h. ground (arith, h) },
)

pub step-IsConsistent :
    (g : ConnectionRegistry) (call : Call) → IsConsistent g → IsConsistent (step g call)
unfolding step
step-IsConsistent g (register s info) (m, i) =
    (register-IsMirrored g m s info, register-IsIndexed g i s info)
step-IsConsistent g (unregister s) (m, i) =
    (unregister-IsMirrored g m s, unregister-IsIndexed g i s)
step-IsConsistent g (update s info) (m, i) =
    (update-IsMirrored g m s info, update-IsIndexed g i s info)
step-IsConsistent g (join s r) (m, i) = (subscribe-IsMirrored g m s r, subscribe-IsIndexed g i s r)
step-IsConsistent g (leave s r) (m, i) =
    (unsubscribe-IsMirrored g m s r, unsubscribe-IsIndexed g i s r)

run-IsConsistent :
    (g : ConnectionRegistry) (calls : List Call) → IsConsistent g → IsConsistent (run g calls)
unfolding run
run-IsConsistent g [] c = c
run-IsConsistent g (call ∷ calls) c =
    run-IsConsistent (step g call) calls (step-IsConsistent g call c)

-- After any sequence of registrations, unregistrations, updates, subscriptions and
-- unsubscriptions on a new registry, the subscribers of the rooms mirror the rooms of the sessions,
-- the sessions with an entry for their rooms are the registered ones, and the index from users to
-- sessions is the inverse of the sessions' user ids.
pub run-new-IsConsistent : (calls : List Call) → IsConsistent (run new calls)
run-new-IsConsistent calls = run-IsConsistent new calls new-IsConsistent

-- After any such sequence no user has two sessions.
pub one_session_per_user :
    (calls : List Call) (u s s' : ℕ)
    → user_of s (run new calls).sessions ≡ some u
    → user_of s' (run new calls).sessions ≡ some u
    → s ≡ s'
one_session_per_user calls u s s' h h' =
    let i = (run-new-IsConsistent calls).1 in ground (arith, i.found u s h, i.found u s' h')

-- After any such sequence, unregistering a session takes it out of every room, and leaves every
-- other session in the rooms it is in.
pub unregister-leaves :
    (calls : List Call) (s s' r : ℕ)
    → is_subscribed (unregister_session (run new calls) s).0 s' r
      ≡ (if s == s' then false else is_subscribed (run new calls) s' r)
unregister-leaves calls s s' r =
    unregister_from (run new calls) (run-new-IsConsistent calls).0 s s' r
