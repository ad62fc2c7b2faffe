-- ===== src/App/State/Rooms.antt =====
-- The active room is one of the rooms (crates/lockframe-app/src/app.rs).
use lockframe.Common.{
  ℕ, ◌≡◌, refl, List, [], ◌∷◌, true, false, Option, none, some, Option-cases, Bool-cases, inl, inr,
  is_some, ◌==◌, if◌then◌else◌, Map, lookup, insert, remove, contains_key, lookup-insert,
  lookup-remove, arith,
}
use lockframe.App.State.{
  App, AppEvent, RoomState, tick, connecting, resize, connected, room_joined, room_left,
  message_received, member_added, member_removed, error, handle, with_room, new_room, new,
  first_room, is_active, receive, set_active_room,
}
use lockframe.Proto.Payload.Types.{Text}

-- A room is active if there is any, and it is one of the rooms.
pub record IsChosen (rooms : Map RoomState) (active : Option ℕ) : Type 0 where
  pub known : (id : ℕ) → active ≡ some id → contains_key id rooms ≡ true
  pub any : active ≡ none → rooms ≡ []

contains-insert :
    (k j : ℕ) (r : RoomState) (m : Map RoomState)
    → contains_key j m ≡ true
    → contains_key j (insert k r m) ≡ true
contains-insert k j r m h = ground (arith, lookup-insert k j r m, h)

contains-insert_new :
    (k : ℕ) (r : RoomState) (m : Map RoomState) → contains_key k (insert k r m) ≡ true
contains-insert_new k r m = ground (arith, lookup-insert k k r m)

contains-remove :
    (k j : ℕ) (m : Map RoomState)
    → (k == j) ≡ false
    → contains_key j m ≡ true
    → contains_key j (remove k m) ≡ true
contains-remove k j m other h = ground (arith, lookup-remove k j m, other, h)

first_room-IsChosen : (m : Map RoomState) → IsChosen m (first_room m)
unfolding lookup
first_room-IsChosen [] = record { known = λ id e. cc e; any = λ e. refl }
first_room-IsChosen ((i, r) ∷ m) = record { known = λ id e. ground (arith, e); any = λ e. cc e }

known_any :
    (m m' : Map RoomState) (id : ℕ) (r : RoomState) → lookup id m ≡ some r → m ≡ [] → m' ≡ []
unfolding lookup
known_any [] m' id r h e = cc h
known_any (x ∷ m) m' id r h e = cc e

remove_any : (k : ℕ) (m : Map RoomState) → m ≡ [] → remove k m ≡ []
unfolding remove
remove_any k [] e = refl
remove_any k (x ∷ m) e = cc e

with_room-IsChosen :
    (m : Map RoomState) (id : ℕ) (change : RoomState → RoomState) (active : Option ℕ)
    → IsChosen m active
    → IsChosen (with_room m id change) active
unfolding with_room
with_room-IsChosen m id change active i = elim (Option-cases (lookup id m)) [
  | inl absent ↦ rw (absent, with_room) i
  | inr (r, here) ↦
      rw (here, with_room)
        (record {
          known = λ j e. contains-insert id j (change r) m (i.known j e);
          any = λ e. known_any m (insert id (change r) m) id r here (i.any e);
        })
]

joined-IsChosen :
    (m : Map RoomState) (id : ℕ) (active : Option ℕ)
    → IsChosen m active
    → IsChosen
        (if contains_key id m then m else insert id (new_room id) m)
        (if is_some active then active else some id)
joined-IsChosen m id (some a) i = elim (Bool-cases (contains_key id m)) [
  | inl here ↦ rw here i
  | inr absent ↦ rw absent (record {
    known = λ j e. contains-insert id j (new_room id) m (i.known j e);
    any = λ e. cc e;
  })
]
joined-IsChosen m id none i = elim (Bool-cases (contains_key id m)) [
  | inl here ↦ rw here (record { known = λ j e. ground (arith, here, e); any = λ e. cc e })
  | inr absent ↦ rw absent (record {
    known = λ j e. ground (arith, contains-insert_new id (new_room id) m, e);
    any = λ e. cc e;
  })
]

left-IsChosen :
    (m : Map RoomState) (id : ℕ) (active : Option ℕ)
    → IsChosen m active
    → IsChosen (remove id m) (if is_active active id then first_room (remove id m) else active)
left-IsChosen m id none i = record { known = λ j e. cc e; any = λ e. remove_any id m (i.any refl) }
left-IsChosen m id (some a) i = elim (Bool-cases (a == id)) [
  | inl it ↦ rw it (first_room-IsChosen (remove id m))
  | inr other ↦ rw other (record {
    known = λ j e. contains-remove id j m (ground (arith, other, e)) (i.known j e);
    any = λ e. cc e;
  })
]

handle-IsChosen :
    (a : App) (event : AppEvent)
    → IsChosen a.rooms a.active_room
    → IsChosen (handle a event).0.rooms (handle a event).0.active_room
unfolding handle
handle-IsChosen a tick i = i
handle-IsChosen a connecting i = i
handle-IsChosen a (resize c r) i = i
handle-IsChosen a (connected s u) i = i
handle-IsChosen a (room_joined id) i = joined-IsChosen a.rooms id a.active_room i
handle-IsChosen a (room_left id) i = left-IsChosen a.rooms id a.active_room i
handle-IsChosen a (message_received id s content) i =
    with_room-IsChosen a.rooms id (receive a.active_room id s content) a.active_room i
handle-IsChosen a (member_added id u) i = with_room-IsChosen a.rooms id _ a.active_room i
handle-IsChosen a (member_removed id u) i = with_room-IsChosen a.rooms id _ a.active_room i
handle-IsChosen a (error message) i = i

-- Events, and the choices of the user between them.
pub data Input : Type 0 where
  event : AppEvent → Input
  select : ℕ → Input

unfoldable pub run : App → List Input → App
run a [] = a
run a (event e ∷ inputs) = run (handle a e).0 inputs
run a (select id ∷ inputs) = run (set_active_room a id) inputs

select-IsChosen :
    (a : App) (id : ℕ)
    → IsChosen a.rooms a.active_room
    → IsChosen (set_active_room a id).rooms (set_active_room a id).active_room
unfolding set_active_room
select-IsChosen a id i = elim (Bool-cases (contains_key id a.rooms)) [
  | inr absent ↦ rw absent i
  | inl here ↦ rw here (
      with_room-IsChosen a.rooms id (λ r. record r { unread = false }) (some id)
        (record { known = λ j e. ground (arith, here, e); any = λ e. cc e }))
]

run-IsChosen :
    (a : App) (inputs : List Input)
    → IsChosen a.rooms a.active_room
    → IsChosen (run a inputs).rooms (run a inputs).active_room
unfolding run
run-IsChosen a [] i = i
run-IsChosen a (event e ∷ inputs) i = run-IsChosen (handle a e).0 inputs (handle-IsChosen a e i)
run-IsChosen a (select id ∷ inputs) i =
    run-IsChosen (set_active_room a id) inputs (select-IsChosen a id i)

-- After any events and choices on a new application, the active room is one of its rooms, and there
-- is one if there are rooms.
pub run-new-IsChosen :
    (address : Text) (inputs : List Input)
    → IsChosen (run (new address) inputs).rooms (run (new address) inputs).active_room
unfolding new
run-new-IsChosen address inputs =
    run-IsChosen (new address) inputs (record { known = λ id e. cc e; any = λ e. refl })
