-- ===== src/Server/Registry.antt =====
-- crates/lockframe-server/src/registry.rs: sessions, their users and their room subscriptions, in
-- four maps that mirror each other.
pub mod Subscriptions
pub mod Users
pub mod Greeting
pub mod Calls
pub mod Sessions
use lockframe.Common.{
  ℕ, List, [], ◌∷◌, Bool, true, false, not, ◌&&◌, Option, none, some, is_some, ◌==◌, if◌then◌else◌,
  length, Map, lookup, insert, remove, contains_key, contains, set_insert, set_remove, is_empty,
}

pub record SessionInfo : Type 0 where
  pub user_id : Option ℕ
  pub authenticated : Bool

unfoldable pub new_info : SessionInfo
new_info = record { user_id = none; authenticated = false }

unfoldable pub authenticated : ℕ → SessionInfo
authenticated user_id = record { user_id = some user_id; authenticated = true }

pub record ConnectionRegistry : Type 0 where
  pub sessions : Map SessionInfo
  pub room_subscriptions : Map (List ℕ)
  pub session_rooms : Map (List ℕ)
  pub user_sessions : Map ℕ

unfoldable pub new : ConnectionRegistry
new = record { sessions = []; room_subscriptions = []; session_rooms = []; user_sessions = [] }

-- `entry(key).or_default()`, and the empty iterator of a missing key.
abbrev pub or_empty : Option (List ℕ) → List ℕ
or_empty none = []
or_empty (some xs) = xs

abbrev with_session : ConnectionRegistry → ℕ → SessionInfo → Map ℕ → ConnectionRegistry
with_session g session_id info users = record g {
  sessions = insert session_id info g.sessions;
  session_rooms = insert session_id [] g.session_rooms;
  user_sessions = users;
}

register_new : ConnectionRegistry → ℕ → SessionInfo → Option ℕ → ConnectionRegistry × Bool
register_new g session_id info none = (with_session g session_id info g.user_sessions, true)
register_new g session_id info (some user_id) =
    if contains_key user_id g.user_sessions
    then (g, false)
    else (with_session g session_id info (insert user_id session_id g.user_sessions), true)

unfoldable pub register_session : ConnectionRegistry → ℕ → SessionInfo → ConnectionRegistry × Bool
unfolding register_new
register_session g session_id info =
    if contains_key session_id g.sessions
    then (g, false)
    else register_new g session_id info info.user_id

abbrev without_user : Option ℕ → Map ℕ → Map ℕ
without_user none users = users
without_user (some user_id) users = remove user_id users

-- One round of the loop over the rooms of a session that leaves.
leave_room : ℕ → ℕ → Map (List ℕ) → Map (List ℕ)
leave_room session_id room_id subscriptions = elim (lookup room_id subscriptions) [
  | none ↦ subscriptions
  | some subscribers ↦
      let rest = set_remove session_id subscribers in
      if is_empty rest then remove room_id subscriptions else insert room_id rest subscriptions
]

leave_rooms : ℕ → List ℕ → Map (List ℕ) → Map (List ℕ)
leave_rooms session_id [] subscriptions = subscriptions
leave_rooms session_id (room_id ∷ rooms) subscriptions =
    leave_rooms session_id rooms (leave_room session_id room_id subscriptions)

unfoldable pub unregister_session :
    ConnectionRegistry → ℕ → ConnectionRegistry × Option (SessionInfo × List ℕ)
unfolding leave_rooms leave_room
unregister_session g session_id = elim (lookup session_id g.sessions) [
  | none ↦ (g, none)
  | some info ↦
      let rooms = or_empty (lookup session_id g.session_rooms) in
      (
        record {
          sessions = remove session_id g.sessions;
          room_subscriptions = leave_rooms session_id rooms g.room_subscriptions;
          session_rooms = remove session_id g.session_rooms;
          user_sessions = without_user info.user_id g.user_sessions;
        },
        some (info, rooms),
      )
]

unfoldable pub sessions : ConnectionRegistry → ℕ → Option SessionInfo
sessions g session_id = lookup session_id g.sessions

unfoldable pub has_session : ConnectionRegistry → ℕ → Bool
has_session g session_id = contains_key session_id g.sessions

-- `Some(new) != old`
abbrev differs : ℕ → Option ℕ → Bool
differs user none = true
differs user (some old) = not (old == user)

taken_by_other : ConnectionRegistry → Option ℕ → Option ℕ → Bool
taken_by_other g old none = false
taken_by_other g old (some user) = differs user old && contains_key user g.user_sessions

abbrev with_user : ℕ → Option ℕ → Map ℕ → Map ℕ
with_user session_id none users = users
with_user session_id (some user_id) users = insert user_id session_id users

unfoldable pub update_session_info :
    ConnectionRegistry → ℕ → SessionInfo → ConnectionRegistry × Bool
unfolding taken_by_other
update_session_info g session_id new_info = elim (lookup session_id g.sessions) [
  | none ↦ (g, false)
  | some old ↦ if taken_by_other g old.user_id new_info.user_id then (g, false) else (
    record g {
      sessions = insert session_id new_info g.sessions;
      user_sessions =
          with_user session_id new_info.user_id (without_user old.user_id g.user_sessions);
    },
    true,
  )
]

unfoldable pub subscribe : ConnectionRegistry → ℕ → ℕ → ConnectionRegistry × Bool
subscribe g session_id room_id = if not (contains_key session_id g.sessions) then (g, false) else (
  record g {
    room_subscriptions =
        insert room_id (set_insert session_id (or_empty (lookup room_id g.room_subscriptions)))
          g.room_subscriptions;
    session_rooms =
        insert session_id (set_insert room_id (or_empty (lookup session_id g.session_rooms)))
          g.session_rooms;
  },
  true,
)

-- `get_mut(&key).is_some_and(|set| set.remove(&x))`: the map after it, and whether `x` was there.
abbrev remove_in : ℕ → ℕ → Map (List ℕ) → Map (List ℕ) × Bool
remove_in key x m = elim (lookup key m) [
  | none ↦ (m, false)
  | some xs ↦ (insert key (set_remove x xs) m, contains x xs)
]

-- An empty set of subscribers is dropped.
abbrev drop_if_empty : ℕ → Map (List ℕ) → Map (List ℕ)
drop_if_empty key m = elim (lookup key m) [
  | none ↦ m
  | some xs ↦ if is_empty xs then remove key m else m
]

unfoldable pub unsubscribe : ConnectionRegistry → ℕ → ℕ → ConnectionRegistry × Bool
unsubscribe g session_id room_id =
    let (subscriptions, from_room) = remove_in room_id session_id g.room_subscriptions in
    let (rooms, from_session) = remove_in session_id room_id g.session_rooms in
    (
      record g { room_subscriptions = drop_if_empty room_id subscriptions; session_rooms = rooms },
      from_room && from_session,
    )

unfoldable pub sessions_in_room : ConnectionRegistry → ℕ → List ℕ
sessions_in_room g room_id = or_empty (lookup room_id g.room_subscriptions)

unfoldable pub rooms_for_session : ConnectionRegistry → ℕ → List ℕ
rooms_for_session g session_id = or_empty (lookup session_id g.session_rooms)

-- A missing room has no subscriber.
unfoldable pub is_subscribed : ConnectionRegistry → ℕ → ℕ → Bool
is_subscribed g session_id room_id =
    contains session_id (or_empty (lookup room_id g.room_subscriptions))

unfoldable pub session_id_for_user : ConnectionRegistry → ℕ → Option ℕ
session_id_for_user g user_id = lookup user_id g.user_sessions

unfoldable pub session_count : ConnectionRegistry → ℕ
session_count g = length g.sessions

unfoldable pub room_session_count : ConnectionRegistry → ℕ → ℕ
room_session_count g room_id = length (or_empty (lookup room_id g.room_subscriptions))
