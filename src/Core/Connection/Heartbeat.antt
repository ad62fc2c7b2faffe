-- ===== src/Core/Connection/Heartbeat.antt =====
-- The timeouts and heartbeats of `tick` in crates/lockframe-core/src/connection.rs.
use lockframe.Common.{
  ℕ, ◌+◌, ◌-◌, ◌≤◌, ◌<◌, ◌≡◌, refl, ◌↔◌, ◌⊎◌, inl, inr, List, [], ◌∷◌, some, leb, if◌then◌else◌,
  Bool-cases, arith,
}
use lockframe.Core.Connection.{
  Connection, pending, authenticated, closed, tick, send_frame, ping_frame,
}

-- How long the connection may be inactive is over at this instant.
abbrev pub IsOverdue : Connection → ℕ → Type 0
IsOverdue c now =
    ((c.state ≡ pending) × (c.config.handshake_timeout < now - c.last_activity))
    ⊎ ((c.state ≡ authenticated) × (c.config.idle_timeout < now - c.last_activity))

-- After a tick a connection is closed if and only if it was closed before, or is overdue.
pub tick-closed_iff :
    (c : Connection) (now : ℕ)
    → ((tick c now).0.state ≡ closed) ↔ ((c.state ≡ closed) ⊎ IsOverdue c now)
unfolding tick
tick-closed_iff c now = (ground arith, ground arith)

-- Authenticated, with a heartbeat sent at most one interval before this instant.
pub record IsBeating (c : Connection) (now : ℕ) : Type 0 where
  pub state : c.state ≡ authenticated
  pub last : ℕ
  pub sent : c.last_heartbeat ≡ some last
  pub active : last ≤ c.last_activity
  pub recent : now ≤ last + c.config.heartbeat_interval

abbrev beaten : Connection → ℕ → Connection
beaten c now = record c { last_heartbeat = some now; last_activity = now }

tick_on_time :
    (c : Connection) (now last : ℕ)
    → c.state ≡ authenticated
    → now - c.last_activity ≤ c.config.idle_timeout
    → c.last_heartbeat ≡ some last
    → tick c now ≡ (
        if leb c.config.heartbeat_interval (now - last)
        then (beaten c now, send_frame ping_frame ∷ [])
        else (c, []))
unfolding tick
tick_on_time c now last a t e = ground arith

tick-IsBeating :
    (c : Connection) (before now gap : ℕ)
    → IsBeating c before
    → now ≤ before + gap
    → c.config.heartbeat_interval + gap ≤ c.config.idle_timeout
    → IsBeating (tick c now).0 now × ((tick c now).0.config ≡ c.config)
tick-IsBeating c before now gap b h fits =
    let e = tick_on_time c now b.last b.state (omega (arith, b.active, b.recent)) b.sent in
    elim (Bool-cases (leb c.config.heartbeat_interval (now - b.last))) [
      | inl due ↦
          rw (e, due)
            (
              record {
                state = b.state;
                last = now;
                sent = refl;
                active = omega arith;
                recent = omega arith;
              },
              refl,
            )
      | inr early ↦
          rw (e, early)
            (
              record {
                state = b.state;
                last = b.last;
                sent = b.sent;
                active = b.active;
                recent = ground arith;
              },
              refl,
            )
    ]

-- Instants that follow one another, from a first one, by at most a gap.
abbrev pub WithinGap : ℕ → ℕ → List ℕ → Type 0
WithinGap gap before [] = Unit
WithinGap gap before (now ∷ later) = (now ≤ before + gap) × WithinGap gap now later

unfoldable pub ticks : Connection → List ℕ → Connection
ticks c [] = c
ticks c (now ∷ later) = ticks (tick c now).0 later

-- An authenticated connection that has sent a heartbeat is kept open by its own ticks, with no
-- frame received: if they come often enough for the next heartbeat to fall within the idle
-- timeout, the connection is never closed, however many there are.
pub ticks-authenticated :
    (c : Connection) (before gap : ℕ) (instants : List ℕ)
    → IsBeating c before
    → WithinGap gap before instants
    → c.config.heartbeat_interval + gap ≤ c.config.idle_timeout
    → (ticks c instants).state ≡ authenticated
unfolding ticks
ticks-authenticated c before gap [] b w fits = b.state
ticks-authenticated c before gap (now ∷ later) b (soon, w) fits =
    let (b', same) = tick-IsBeating c before now gap b soon fits in
    ticks-authenticated (tick c now).0 now gap later b' w (rw same fits)
