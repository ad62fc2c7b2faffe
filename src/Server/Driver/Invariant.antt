-- ===== src/Server/Driver/Invariant.antt =====
-- The state of the driver stays sound (crates/lockframe-server/src/driver.rs): registry,
-- connections and their number, through every event.
use lockframe.Common.{ℕ, ◌≤◌, length}
use lockframe.Server.Registry.{subscribe}
use lockframe.Server.Registry.Sessions.{subscribe-sessions}
use lockframe.Server.Registry.Calls.{IsConsistent, step-IsConsistent, step, join}
use lockframe.Server.Driver.Types.{ServerDriver}
use lockframe.Server.Driver.Untouched.{Untouched}
use lockframe.Server.Driver.Matching.{IsMatched}

-- The registry is consistent, connections and sessions match, and there are no more connections
-- than the configuration allows.
pub record IsSound {S : Type 0} (d : ServerDriver S) : Type 0 where
  pub consistent : IsConsistent d.registry
  pub matched : IsMatched d.connections d.registry.sessions
  pub bounded : length d.connections ≤ d.config.max_connections

pub Untouched-IsSound :
    {S : Type 0} (d d' : ServerDriver S) → Untouched d d' → IsSound d → IsSound d'
Untouched-IsSound d d' u i = record {
  consistent = rw u.registry i.consistent;
  matched = rw (u.registry, u.connections) i.matched;
  bounded = rw (u.connections, u.config) i.bounded;
}

pub subscribed-IsSound :
    {S : Type 0} (d : ServerDriver S) (s r : ℕ)
    → IsSound d
    → IsSound (record d { registry = (subscribe d.registry s r).0 })
subscribed-IsSound d s r i = record {
  consistent = unfold step in step-IsConsistent d.registry (join s r) i.consistent;
  matched = rw (subscribe-sessions d.registry s r) i.matched;
  bounded = i.bounded;
}
