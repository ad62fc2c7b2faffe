-- ===== src/Tui.antt =====
-- crates/lockframe-tui: the commands of the user (Commands, commands.rs), and the line that they are typed
-- in (Input, input.rs).
pub mod Commands
pub mod Input
