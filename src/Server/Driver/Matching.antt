-- ===== src/Server/Driver/Matching.antt =====
-- Connections and sessions of the driver (crates/lockframe-server/src/driver.rs) belong together:
-- how each change of the two maps keeps it so.
use lockframe.Common.{
  ℕ, ◌≤◌, ◌≡◌, refl, sym, ◌∙◌, [], ◌∷◌, false, Option, none, some, arith, Bool-cases, inl, inr,
  ◌==◌, ==_iff, length, Map, lookup, insert, remove, contains_key, lookup-insert, lookup-remove,
}
use lockframe.Core.Connection.{Connection, is_init, tick}
use lockframe.Core.Connection.Serving.{Continues, tick-Continues}
use lockframe.Server.Registry.{
  ConnectionRegistry, SessionInfo, new_info, register_session, unregister_session,
  update_session_info,
}
use lockframe.Server.Registry.Users.{user_of}
use lockframe.Server.Registry.Sessions.{
  contains_key-register, user_of-register, contains_key-update, user_of-update, user_of-update_own,
  lookup-unregister,
}
use lockframe.Server.Driver.Sessions.{tick_all, or_else}

-- The connections are those of the registered sessions, each bears the id of its session, and a
-- session has a user only once its connection has left the initial state; the user is the sender id
-- that the connection took from its Hello, or the session's own id if the Hello named none.
pub record IsMatched (cs : Map Connection) (ss : Map SessionInfo) : Type 0 where
  pub connected : (s : ℕ) → contains_key s cs ≡ contains_key s ss
  pub identified : (s : ℕ) (c : Connection) → lookup s cs ≡ some c → c.session_id ≡ some s
  pub greeted :
      (s u : ℕ) (c : Connection)
      → user_of s ss ≡ some u
      → lookup s cs ≡ some c
      → is_init c.state ≡ false
  pub named :
      (s u : ℕ) (c : Connection)
      → user_of s ss ≡ some u
      → lookup s cs ≡ some c
      → or_else c.client_sender_id c.session_id ≡ some u

pub length-insert_known {ℓ} :
    {V : Type ℓ} (k : ℕ) (v w : V) (m : Map V)
    → lookup k m ≡ some w
    → length (insert k v m) ≡ length m
unfolding lookup insert
length-insert_known k v w [] h = cc
length-insert_known k v w ((j, x) ∷ m) h = ground (arith, length-insert_known k v w m)

pub length-remove-le {ℓ} : {V : Type ℓ} (k : ℕ) (m : Map V) → length (remove k m) ≤ length m
unfolding remove
length-remove-le k [] = omega arith
length-remove-le k ((j, x) ∷ m) = ground (arith, length-remove-le k m)

module _ (cs : Map Connection) (ss : Map SessionInfo) (m : IsMatched cs ss) where
  -- A connection goes on.
  pub continue-IsMatched :
      (s : ℕ) (c c' : Connection)
      → lookup s cs ≡ some c
      → Continues c c'
      → IsMatched (insert s c' cs) ss
  continue-IsMatched s c c' here k = record {
    connected = λ s'. ground (arith, m.connected s', m.connected s, lookup-insert s s' c' cs);
    identified = λ s' c'' e.
        ground (
          arith,
          m.identified s' c'',
          m.identified s c here,
          k.session_id,
          lookup-insert s s' c' cs,
        );
    greeted = λ s' u c'' user e. ground (
      arith,
      m.greeted s' u c'' user,
      m.greeted s u c,
      here,
      k.started,
      lookup-insert s s' c' cs,
    );
    named = λ s' u c'' user e. elim (Bool-cases (s == s')) [
      | inr other ↦ m.named s' u c'' user (ground (arith, lookup-insert s s' c' cs, other, e))
      | inl own ↦
          let same : s ≡ s' = (==_iff s s').0 own in
          let is : c' ≡ c'' = ground (arith, lookup-insert s s' c' cs, own, e) in
          let here' : lookup s' cs ≡ some c = rw same at here in
          let kept = k.named (m.greeted s' u c user here') in
          rw (← is, kept, k.session_id) (m.named s' u c user here')
    ];
  }

  -- A connection is accepted under a new id.
  pub accept-IsMatched :
      (g : ConnectionRegistry) (s : ℕ) (c : Connection)
      → g.sessions ≡ ss
      → contains_key s cs ≡ false
      → c.session_id ≡ some s
      → IsMatched (insert s c cs) (register_session g s new_info).0.sessions
  accept-IsMatched g s c same fresh own = record {
    connected = λ s'.
        ground (arith, m.connected s', lookup-insert s s' c cs, contains_key-register g s s', same);
    identified = λ s' c' e. ground (arith, m.identified s' c', lookup-insert s s' c cs, own);
    greeted = λ s' u c' user e. ground (
      arith,
      m.greeted s' u c',
      m.connected s,
      lookup-insert s s' c cs,
      user_of-register g s s',
      same,
      user,
    );
    named = λ s' u c' user e. ground (
      arith,
      m.named s' u c',
      m.connected s,
      lookup-insert s s' c cs,
      user_of-register g s s',
      same,
      user,
    );
  }

  -- A connection is closed.
  pub close-IsMatched :
      (g : ConnectionRegistry) (s : ℕ)
      → g.sessions ≡ ss
      → IsMatched (remove s cs) (unregister_session g s).0.sessions
  close-IsMatched g s same = record {
    connected =
        λ s'. ground (arith, m.connected s', lookup-remove s s' cs, lookup-unregister g s s', same);
    identified = λ s' c' e. ground (arith, m.identified s' c', lookup-remove s s' cs);
    greeted = λ s' u c' user e.
        ground (arith, m.greeted s' u c', lookup-remove s s' cs, lookup-unregister g s s', same);
    named = λ s' u c' user e.
        ground (arith, m.named s' u c', lookup-remove s s' cs, lookup-unregister g s s', same);
  }

  -- A session gets the user that its connection names, having started.
  pub update-IsMatched :
      (g : ConnectionRegistry) (s : ℕ) (c : Connection) (given : SessionInfo)
      → g.sessions ≡ ss
      → lookup s cs ≡ some c
      → is_init c.state ≡ false
      → or_else c.client_sender_id c.session_id ≡ given.user_id
      → IsMatched cs (update_session_info g s given).0.sessions
  update-IsMatched g s c given same here started names = record {
    connected = λ s'. ground (arith, m.connected s', contains_key-update g s given s', same);
    identified = m.identified;
    greeted = λ s' u c' user e.
        ground (arith, m.greeted s' u c', user_of-update g s given s', same, here, started);
    named = λ s' u c' user e. elim (Bool-cases (s == s')) [
      | inr other ↦
          m.named s' u c' (ground (arith, user_of-update g s given s' other, same, user)) e
      | inl own ↦
          let is : s ≡ s' = (==_iff s s').0 own in
          let c_is : c ≡ c' = ground (arith, here, is, e) in
          rw (← c_is) (elim (user_of-update_own g s given u (rw (← is) at user)) [
            | inl new ↦ names ∙ new
            | inr old ↦ m.named s u c (rw same at old) here
          ])
    ];
  }

abbrev ticked : ℕ → Option Connection → Option Connection
ticked now none = none
ticked now (some c) = some (tick c now).0

lookup-tick_all :
    (s : ℕ) (cs : Map Connection) (now : ℕ)
    → lookup s (tick_all cs now).0 ≡ ticked now (lookup s cs)
unfolding lookup tick_all
lookup-tick_all s [] now = refl
lookup-tick_all s ((s', c) ∷ rest) now = ground (arith, lookup-tick_all s rest now)

pub length-tick_all : (cs : Map Connection) (now : ℕ) → length (tick_all cs now).0 ≡ length cs
unfolding tick_all
length-tick_all [] now = refl
length-tick_all ((s, c) ∷ rest) now = omega (arith, length-tick_all rest now)

ticked-some :
    (now : ℕ) (o : Option Connection) (c' : Connection)
    → ticked now o ≡ some c'
    → (c : Connection) × (o ≡ some c) × (c' ≡ (tick c now).0)
ticked-some now none c' e = cc
ticked-some now (some c) c' e = (c, refl, cc)

pub tick-IsMatched :
    (cs : Map Connection) (ss : Map SessionInfo) (now : ℕ)
    → IsMatched cs ss
    → IsMatched (tick_all cs now).0 ss
tick-IsMatched cs ss now m = record {
  connected = λ s. ground (arith, m.connected s, lookup-tick_all s cs now);
  identified = λ s c' e.
      let (c, here, is) = ticked-some now (lookup s cs) c' (sym (lookup-tick_all s cs now) ∙ e) in
      ground (arith, m.identified s c here, (tick-Continues c now).session_id, is);
  greeted = λ s u c' user e.
      let (c, here, is) = ticked-some now (lookup s cs) c' (sym (lookup-tick_all s cs now) ∙ e) in
      ground (arith, m.greeted s u c user here, (tick-Continues c now).started, is);
  named = λ s u c' user e.
      let (c, here, is) = ticked-some now (lookup s cs) c' (sym (lookup-tick_all s cs now) ∙ e) in
      let k = tick-Continues c now in
      let kept = k.named (m.greeted s u c user here) in
      rw (is, kept, k.session_id) (m.named s u c user here);
}
