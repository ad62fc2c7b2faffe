-- ===== src/Client/Frames/Unchecked.antt =====
-- What a client takes from the group unchecked (crates/lockframe-client/src/client.rs): the frames that
-- have no handler of their own.
use lockframe.Proto.Opcode.{Opcode}
use lockframe.Proto.Header
use lockframe.Proto.Frame.{Frame}
use lockframe.Client.Types.{Client}
