-- ===== src/App.antt =====
-- crates/lockframe-app: the state of the application (State, app.rs and state.rs), and the bridge between it and
-- the client (Bridge, bridge.rs).
pub mod State
pub mod Bridge
