-- ===== src/Examples.antt =====
-- Concrete inputs for the theorems of the development: small servers, connections, frames and
-- stores, and the theorems applied to them.
mod Wire
mod Coder
mod Session
mod Rooms
mod Registries
mod Keys
mod Validation
mod Serving
mod Durable
mod Member
mod Screen
