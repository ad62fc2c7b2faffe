-- ===== src/Examples/Registries.antt =====
-- The registries of the server (crates/lockframe-server/src/registry.rs and
-- key_package_registry.rs).
use lockframe.Common.{
  ◌≡◌, refl, List, [], ◌∷◌, some, none, ◌==◌, if◌then◌else◌, false, lookup, insert, remove,
}
use lockframe.Server.Registry.{
  ConnectionRegistry, authenticated, new_info, new, is_subscribed, unregister_session,
}
use lockframe.Server.Registry as Registry
use lockframe.Server.Registry.Users.{user_of}
use lockframe.Server.Registry.Calls.{
  Call, register, unregister, update, join, leave, run, IsConsistent, run-new-IsConsistent,
  one_session_per_user, unregister-leaves,
}
use lockframe.Server.KeyPackages.{entry, with_capacity, store, take, success, evicted}
use lockframe.Server.KeyPackages.Refinement as Packages
use lockframe.Server.KeyPackages.Refinement.{
  replies, spec_replies, replies-queued, publish, fetch, stored, fetched,
}

-- Session 1 of user 8 joins two rooms, session 2 takes user 8's place once it has left.
abbrev calls : List Call
calls =
    register 1 (authenticated 8)
    ∷ join 1 70
    ∷ join 1 71
    ∷ register 2 new_info
    ∷ update 2 (authenticated 8)
    ∷ leave 1 71
    ∷ unregister 1
    ∷ update 2 (authenticated 8)
    ∷ join 2 70
    ∷ []

run-new-IsConsistent_example : IsConsistent (run new calls)
run-new-IsConsistent_example = run-new-IsConsistent calls

user_is_2 : user_of 2 (run new calls).sessions ≡ some 8
unfolding run Registry.Calls.step new lookup Registry.subscribe Registry.update_session_info
    unregister_session Registry.unsubscribe Registry.register_session authenticated insert new_info
    remove
user_is_2 = refl

unregister-leaves_example :
    is_subscribed (unregister_session (run new calls) 2).0 2 70
    ≡ (if 2 == 2 then false else is_subscribed (run new calls) 2 70)
unregister-leaves_example = unregister-leaves calls 2 2 70

-- Three users share two places: the first one's package is evicted.
abbrev package_calls : List Packages.Call
package_calls =
    publish 1 (entry (10 ∷ []) [])
    ∷ publish 2 (entry (20 ∷ []) [])
    ∷ publish 3 (entry (30 ∷ []) [])
    ∷ fetch 1
    ∷ fetch 3
    ∷ fetch 3
    ∷ []

replies-queued_example :
    replies (some (with_capacity 2)) package_calls ≡ spec_replies 2 (some (0, [])) package_calls
replies-queued_example = replies-queued 2 package_calls

-- What those calls answer.
package_replies :
    replies (some (with_capacity 2)) package_calls
    ≡ stored success
      ∷ stored success
      ∷ stored evicted
      ∷ fetched none
      ∷ fetched (some (record (entry (30 ∷ []) []) { timestamp = 2 }))
      ∷ fetched none
      ∷ []
unfolding replies Packages.step with_capacity entry store lookup insert take remove
package_replies = refl
