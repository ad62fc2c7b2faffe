-- ===== src/Lib.antt =====
-- Lockframe: end-to-end encrypted group messaging through a server that orders frames and routes
-- them.
--
-- The program's parts. Clients and server speak the protocol of crates/lockframe-proto: frames of a
-- fixed header and a CBOR payload. Each connection is a session state machine
-- (crates/lockframe-core/src/connection.rs) that both ends run. The server
-- (crates/lockframe-server) gives each frame of a room to its room manager, which has the sequencer
-- assign the next index of the room's log, and the driver stores the frame and broadcasts it to the
-- sessions that the connection registry has in the room; it also keeps key packages for users who
-- are to be added to groups. Clients encrypt messages with sender keys: one ratchet per member and
-- epoch (crates/lockframe-crypto), kept in a store per room (crates/lockframe-client). The
-- application (crates/lockframe-app) talks to the client through a bridge, and the terminal
-- (crates/lockframe-tui) to the application.
--
-- Which file models which part:
--   Proto/Opcode        crates/lockframe-proto/src/opcodes.rs: Opcode, to_u16, from_u16
--   Proto/Errors        crates/lockframe-proto/src/errors.rs: ProtocolError
--   Proto/Header        crates/lockframe-proto/src/header.rs: FrameHeader as its byte arrays;
--                       from_bytes is the cast (ref_from_prefix) and the checks (check_header)
--   Proto/Frame         crates/lockframe-proto/src/frame.rs: new, encode, decode
--   Proto/Payload       crates/lockframe-proto/src/payloads: the structs (Types), the CBOR coder as
--                       a parameter (Coder), coding by opcode, into_frame and from_frame
--   Core/Connection     crates/lockframe-core/src/connection.rs and error.rs: a method with
--                       `&mut self` returns the connection after the call and its result;
--                       handle_frame's match is dispatch, its arms on_hello, on_hello_reply,
--                       on_goodbye
--   Core/GroupState     crates/lockframe-core/src/mls/state.rs: MlsGroupState
--   Core/Validator      crates/lockframe-core/src/mls/validator.rs: validate_frame,
--                       validate_signature, validate_frame_no_state
--   Server/Storage      crates/lockframe-server/src/storage: the trait as a record of operations
--                       over a type of contents; KeepsLogs is what the sequencer relies on
--   Server/Memory       crates/lockframe-server/src/storage/memory.rs: an instance of both
--   Server/Redb         crates/lockframe-server/src/storage/redb.rs: the keys of its tables; Store has
--                       the methods over the tables of a database
--   Server/Chaotic      crates/lockframe-server/src/storage/chaotic.rs: a store that fails at random
--   Server/Sequencer    crates/lockframe-server/src/sequencer.rs: process_frame is the validation,
--                       route (Welcome), sequence and enter (the cache entry) and assign
--   Server/RoomManager  crates/lockframe-server/src/room_manager.rs; Log is the path of a
--                       frame through room manager and store alone, as the driver composes them;
--                       Sync is what handle_sync_request answers
--   Server/Driver       crates/lockframe-server/src/driver.rs: events (Events), sessions (Sessions),
--                       rooms and frames of rooms (Rooms), requests (Requests), and the actions of
--                       the room manager (Replies); server_error.rs is in Types. Invariant and Logs
--                       say what stays true of its state
--   Server/Registry     crates/lockframe-server/src/registry.rs
--   Server/KeyPackages  crates/lockframe-server/src/key_package_registry.rs
--   Crypto              crates/lockframe-crypto/src/sender_keys: Ratchet, Derivation, Encryption
--   Core/Mls            crates/lockframe-core/src/mls/group.rs and error.rs: MlsGroup over OpenMLS;
--                       creating, joining and exports (Membership), commits (Commits)
--   Client/SenderKeys   crates/lockframe-client/src/sender_key_store.rs
--   Client              crates/lockframe-client/src/client.rs, event.rs and error.rs: rooms and
--                       joining (Rooms), messages (Messages), commits (Commits), members and the
--                       tick (Members), the dispatch of frames and events (Frames)
--   App                 crates/lockframe-app/src: State is app.rs with state.rs, action.rs and event.rs,
--                       Bridge is bridge.rs
--   Tui                 crates/lockframe-tui/src: Commands is commands.rs, Input is input.rs
--   Common              Boolean tests, lists, maps and sets, big-endian bytes
--   Examples            concrete inputs, and the theorems applied to them
--
-- Conventions. Numbers are natural numbers; where a fixed width matters it is written out, as
-- byte lists of that width (headers, nonces), as an explicit wrap-around or as a test against the
-- largest value. Instants and durations are numbers. Hash maps are association lists and hash sets
-- lists, read only by lookup, membership and size. A mutex makes each operation one step; that a
-- panic under the lock poisons it is modelled for the key packages, not for the in-memory store.
-- Texts of errors and reasons are data with one constructor for each. A panic that a caller can
-- cause is `none`; debug assertions are not modelled. Three loops have fuel. Ratchet.advance_while
-- gets as many rounds as there are generations up to the target, and the theorem on advance_to
-- shows that these give the key. Frames.handle_frame calls itself for the frames in a sync
-- response; its fuel is more than the bytes of the payload, which is shown to be enough. An event
-- of the driver reads the clock once; one of the client gets the time, a seed and random bytes.
-- Bridge.process_client_actions calls itself for a key package that is published again; two levels
-- are shown to be enough.
--
-- Parameters: CBOR (ciborium), HMAC-SHA256, HKDF-SHA256, XChaCha20-Poly1305, Ed25519, OpenMLS (a record of
-- the calls that the group makes) and redb (ranges, reads and writes of tables). Assumed of them is
-- what their documentation promises: what CBOR wrote reads back, and no byte string that it reads is
-- longer than its input; what the AEAD sealed opens under the same key and nonce; a range of a redb
-- table has the entries that were put, in the order of their keys.
--
-- Not modelled: the inside of the parameters, the provider that OpenMLS stores its keys with,
-- transports and clocks, the runtimes around the server's driver and the application, the drawing of
-- the terminal, and the simulation harness. Of the connection registry sessions_mut is left out, which hands out a
-- mutable reference and is not called outside its file; of errors their
-- conversions and is_transient.
pub mod Common
pub mod Proto
pub mod Core
pub mod Server
pub mod Crypto
pub mod Client
pub mod App
pub mod Tui
pub mod Examples
