-- ===== src/Server.antt =====
-- crates/lockframe-server: storage, sequencing, rooms, sessions, key packages, and the driver that
-- ties them together.
pub mod Storage
pub mod Memory
pub mod Redb
pub mod Chaotic
pub mod Sequencer
pub mod RoomManager
pub mod Registry
pub mod KeyPackages
pub mod Driver
