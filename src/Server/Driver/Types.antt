-- ===== src/Server/Driver/Types.antt =====
-- crates/lockframe-server/src/driver.rs and server_error.rs: the events and the actions of the
-- server driver, and its state. Texts stand as data: one constructor for each `format!`.
use lockframe.Common.{ℕ, List, Map}
use lockframe.Proto.Errors.{ProtocolError}
use lockframe.Proto.Frame.{Frame}
use lockframe.Proto.Payload.Types.{Text}
use lockframe.Core.Connection.{Connection, ConnectionConfig, ConnectionError, CloseReason}
use lockframe.Core.Connection
use lockframe.Server.Storage.{StorageError}
use lockframe.Server.Sequencer.{SequencerError, Invalid}
use lockframe.Server.Registry.{ConnectionRegistry}
use lockframe.Server.RoomManager.{RoomManager, RoomError}
use lockframe.Server.KeyPackages.{KeyPackageRegistry}

pub record ServerConfig : Type 0 where
  pub connection : ConnectionConfig
  pub max_connections : ℕ

abbrev pub default_config : ServerConfig
default_config = record { connection = Connection.default_config; max_connections = 10000 }

pub data ServerEvent : Type 0 where
  connection_accepted : ℕ → ServerEvent
  frame_received : ℕ → Frame → ServerEvent
  connection_closed : ℕ → Text → ServerEvent
  timer_tick : ServerEvent

pub data LogLevel : Type 0 where
  debug info warn error : LogLevel

-- The text of `ServerError::Protocol`: that of a `ProtocolError`, or the one of the sync handler.
pub data ProtocolText : Type 0 where
  of_protocol : ProtocolError → ProtocolText
  expected_sync_request : ProtocolText

pub data ServerError : Type 0 where
  session_not_found session_already_exists : ℕ → ServerError
  room : RoomError → ServerError
  storage : StorageError → ServerError
  connection_failed : ℕ → ConnectionError → ServerError
  protocol : ProtocolText → ServerError

-- The requests whose payload a handler decodes for itself.
pub data Request : Type 0 where
  key_package_publish key_package_fetch group_info group_info_request : Request

-- The texts that an error payload carries to a client.
pub data ErrorText : Type 0 where
  session_not_authenticated unknown_session : ErrorText
  expected_payload : Request → ErrorText
  failed_to_decode : Request → ProtocolError → ErrorText
  room_not_found key_package_not_found number : ℕ → ErrorText
  of_storage : StorageError → ErrorText
  of_sequencer : SequencerError → ErrorText
  of_protocol_text : ProtocolText → ErrorText
  of_server : ServerError → ErrorText
  of_invalid : Invalid → ErrorText

pub data LogMessage : Type 0 where
  accepted : ℕ → LogMessage
  closed : ℕ → Text → ℕ → LogMessage
  subscribed_via_welcome : ℕ → ℕ → ℕ → LogMessage
  welcome_not_connected : ℕ → ℕ → LogMessage
  subscribed_via_external_commit : ℕ → ℕ → LogMessage
  room_created : ℕ → ℕ → LogMessage
  sync_failed : ℕ → Text → LogMessage
  request_from_unauthenticated request_from_unknown : ℕ → LogMessage
  unexpected_payload : Request → ℕ → LogMessage
  undecodable_payload : Request → ℕ → ProtocolError → LogMessage
  encode_failed : ProtocolError → LogMessage
  published evicted_an_entry key_package_fetched : ℕ → LogMessage
  no_key_package no_group_info : ℕ → ℕ → LogMessage
  group_info_stored group_info_fetched : ℕ → ℕ → LogMessage
  group_info_not_stored group_info_not_loaded : ℕ → StorageError → LogMessage
  persist_failed : StorageError → LogMessage
  rejected_frame : ℕ → Invalid → LogMessage

pub data CloseText : Type 0 where
  of_connection : CloseReason → CloseText
  max_connections_exceeded : CloseText

pub data ServerAction : Type 0 where
  send_to_session : ℕ → Frame → ServerAction
  broadcast : List ℕ → Frame → ServerAction
  close_connection : ℕ → CloseText → ServerAction
  log_line : LogLevel → LogMessage → ℕ → ServerAction

pub record ServerDriver (S : Type 0) : Type 0 where
  pub connections : Map Connection
  pub registry : ConnectionRegistry
  pub room_manager : RoomManager
  pub key_package_registry : KeyPackageRegistry
  pub storage : S
  pub config : ServerConfig
