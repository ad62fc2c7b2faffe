-- ===== src/Server/Registry/Subscriptions.antt =====
-- The two views of the subscriptions agree (crates/lockframe-server/src/registry.rs).
use lockframe.Common.{
  ℕ, ◌≡◌, refl, sym, ◌∙◌, List, [], ◌∷◌, Bool, true, false, ◌&&◌, Option-cases, inl, inr, ◌==◌,
  if◌then◌else◌, arith, Map, lookup, insert, contains_key, contains, set_insert, set_remove,
  lookup-insert, lookup-remove, contains-set_insert, contains-set_remove,
}
use lockframe.Server.Registry.{
  ConnectionRegistry, SessionInfo, or_empty, remove_in, drop_if_empty, leave_room, leave_rooms,
  register_session, unregister_session, update_session_info, subscribe, unsubscribe, is_subscribed,
}

-- Membership in a set of a map of sets.
abbrev pub holds : ℕ → ℕ → Map (List ℕ) → Bool
holds x key m = contains x (or_empty (lookup key m))

holds-leave_room :
    (s r x key : ℕ) (m : Map (List ℕ))
    → holds x key (leave_room s r m) ≡ (if (r == key) && (s == x) then false else holds x key m)
unfolding leave_room contains
holds-leave_room s r x key m = elim (Option-cases (lookup r m)) [
  | inl e ↦ rw (e, leave_room) (ground (arith, e))
  | inr (xs, e) ↦
      rw (e, leave_room)
        (ground (
          arith,
          e,
          lookup-remove r key m,
          lookup-insert r key (set_remove s xs) m,
          contains-set_remove s x xs,
        ))
]

holds-leave_rooms :
    (s x key : ℕ) (rooms : List ℕ) (m : Map (List ℕ))
    → holds x key (leave_rooms s rooms m)
      ≡ (if contains key rooms && (s == x) then false else holds x key m)
unfolding leave_rooms contains
holds-leave_rooms s x key [] m = refl
holds-leave_rooms s x key (r ∷ rooms) m =
    holds-leave_rooms s x key rooms (leave_room s r m)
    ∙ rw (holds-leave_room s r x key m) (ground arith)

holds-add :
    (key x x' key' : ℕ) (m : Map (List ℕ))
    → holds x' key' (insert key (set_insert x (or_empty (lookup key m))) m)
      ≡ (if (key == key') && (x == x') then true else holds x' key' m)
holds-add key x x' key' m = ground (
  arith,
  lookup-insert key key' (set_insert x (or_empty (lookup key m))) m,
  contains-set_insert x x' (or_empty (lookup key m)),
)

holds-remove_in :
    (key x x' key' : ℕ) (m : Map (List ℕ))
    → holds x' key' (remove_in key x m).0
      ≡ (if (key == key') && (x == x') then false else holds x' key' m)
unfolding contains
holds-remove_in key x x' key' m = elim (Option-cases (lookup key m)) [
  | inl e ↦ rw (e, remove_in) (ground (arith, e))
  | inr (xs, e) ↦
      rw (e, remove_in)
        (ground (arith, e, lookup-insert key key' (set_remove x xs) m, contains-set_remove x x' xs))
]

contains_key-remove_in :
    (key x key' : ℕ) (m : Map (List ℕ))
    → contains_key key' (remove_in key x m).0 ≡ contains_key key' m
contains_key-remove_in key x key' m = elim (Option-cases (lookup key m)) [
  | inl e ↦ rw (e, remove_in)
  | inr (xs, e) ↦ rw (e, remove_in) (ground (arith, e, lookup-insert key key' (set_remove x xs) m))
]

holds-drop_if_empty :
    (key x' key' : ℕ) (m : Map (List ℕ)) → holds x' key' (drop_if_empty key m) ≡ holds x' key' m
unfolding contains
holds-drop_if_empty key x' key' m = elim (Option-cases (lookup key m)) [
  | inl e ↦ rw (e, drop_if_empty)
  | inr (xs, e) ↦ rw (e, drop_if_empty) (ground (arith, e, lookup-remove key key' m))
]

-- A session is among a room's subscribers exactly when the room is among the session's rooms, and
-- the sessions that have an entry for their rooms are the registered ones.
pub record IsMirrored (g : ConnectionRegistry) : Type 0 where
  pub mirrored : (s r : ℕ) → holds s r g.room_subscriptions ≡ holds r s g.session_rooms
  pub registered : (s : ℕ) → contains_key s g.sessions ≡ contains_key s g.session_rooms

module _ (g : ConnectionRegistry) (c : IsMirrored g) where
  -- What an unregistered session is in.
  holds_unregistered :
      (s r : ℕ) → contains_key s g.sessions ≡ false → holds r s g.session_rooms ≡ false
  unfolding contains
  holds_unregistered s r h = ground (arith, c.registered s)

  pub register-IsMirrored : (s : ℕ) (info : SessionInfo) → IsMirrored (register_session g s info).0
  unfolding register_session contains
  register-IsMirrored s info = record {
    mirrored = λ s' r.
        ground
          (arith, c.mirrored s' r, holds_unregistered s r, lookup-insert s s' [] g.session_rooms);
    registered = λ s'. ground (
      arith,
      c.registered s',
      lookup-insert s s' info g.sessions,
      lookup-insert s s' [] g.session_rooms,
    );
  }

  pub update-IsMirrored : (s : ℕ) (info : SessionInfo) → IsMirrored (update_session_info g s info).0
  unfolding update_session_info
  update-IsMirrored s info = record {
    mirrored = λ s' r. ground (arith, c.mirrored s' r);
    registered = λ s'. ground (arith, c.registered s', lookup-insert s s' info g.sessions);
  }

  pub subscribe-IsMirrored : (s r : ℕ) → IsMirrored (subscribe g s r).0
  unfolding subscribe
  subscribe-IsMirrored s r = record {
    mirrored = λ s' r'. ground (
      arith,
      c.mirrored s' r',
      c.mirrored s' r,
      c.mirrored s r',
      holds-add r s s' r' g.room_subscriptions,
      holds-add s r r' s' g.session_rooms,
    );
    registered = λ s'. ground (
      arith,
      c.registered s',
      lookup-insert s s' (set_insert r (or_empty (lookup s g.session_rooms))) g.session_rooms,
    );
  }

  pub unsubscribe-IsMirrored : (s r : ℕ) → IsMirrored (unsubscribe g s r).0
  unfolding unsubscribe
  unsubscribe-IsMirrored s r = record {
    mirrored = λ s' r'.
        holds-drop_if_empty r s' r' _
        ∙ holds-remove_in r s s' r' g.room_subscriptions
        ∙ ground (arith, c.mirrored s' r', holds-remove_in s r r' s' g.session_rooms);
    registered = λ s'. c.registered s' ∙ sym (contains_key-remove_in s r s' g.session_rooms);
  }

  pub unregister-IsMirrored : (s : ℕ) → IsMirrored (unregister_session g s).0
  unfolding unregister_session contains
  unregister-IsMirrored s = elim (Option-cases (lookup s g.sessions)) [
    | inl e ↦ rw (e, unregister_session) c
    | inr (info, e) ↦
        rw (e, unregister_session)
          (record {
            mirrored = λ s' r.
                holds-leave_rooms s s' r (or_empty (lookup s g.session_rooms)) g.room_subscriptions
                ∙ ground
                    (arith, c.mirrored s' r, c.mirrored s r, lookup-remove s s' g.session_rooms);
            registered = λ s'. ground (
              arith,
              c.registered s',
              lookup-remove s s' g.session_rooms,
              lookup-remove s s' g.sessions,
            );
          })
  ]

pub unregister_from :
    (g : ConnectionRegistry) (m : IsMirrored g) (s s' r : ℕ)
    → is_subscribed (unregister_session g s).0 s' r
      ≡ (if s == s' then false else is_subscribed g s' r)
unfolding is_subscribed unregister_session contains
unregister_from g m s s' r = elim (Option-cases (lookup s g.sessions)) [
  | inl e ↦ rw (e, unregister_session) (ground (arith, e, m.mirrored s r, m.registered s))
  | inr (info, e) ↦
      rw (e, unregister_session)
        (holds-leave_rooms s s' r (or_empty (lookup s g.session_rooms)) g.room_subscriptions
          ∙ ground (arith, m.mirrored s r))
]
