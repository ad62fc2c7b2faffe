-- ===== src/Server/Driver.antt =====
-- crates/lockframe-server/src/driver.rs: `ServerDriver`, which ties connections, the session
-- registry, the room manager, the key packages and the store together.
--
-- A handler is a function on the driver's state. `now` is the reading of the clock for the event
-- (the source reads it again in the nested handlers, for the time stamps of log lines), and
-- `clock` that of the wall clock.
pub mod Types
pub mod Replies
pub mod Requests
pub mod Sessions
pub mod Rooms
pub mod Untouched
pub mod Matching
pub mod Invariant
pub mod Logs
pub mod Delivery
pub mod Events
