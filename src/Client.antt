-- ===== src/Client.antt =====
-- crates/lockframe-client: the store of sender keys, and the client on top of it, of the groups and of
-- the wire format.
pub mod SenderKeys
pub mod Types
pub mod Rooms
pub mod Messages
pub mod Commits
pub mod Members
pub mod Frames
