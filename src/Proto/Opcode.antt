-- ===== src/Proto/Opcode.antt =====
-- crates/lockframe-proto/src/opcodes.rs: the operation codes and their 16-bit values.
pub mod Codes
use lockframe.Common.{ℕ, Bool, true, false, Option, none, some, ◌==◌, if◌then◌else◌}

pub data Opcode : Type 0 where
  hello : Opcode
  hello_reply : Opcode
  goodbye : Opcode
  ping : Opcode
  pong : Opcode
  sync_request : Opcode
  sync_response : Opcode
  error : Opcode
  key_package : Opcode
  proposal : Opcode
  commit : Opcode
  welcome : Opcode
  group_info : Opcode
  psk_proposal : Opcode
  re_init : Opcode
  external_commit : Opcode
  key_package_publish : Opcode
  key_package_fetch : Opcode
  group_info_request : Opcode
  app_message : Opcode
  app_receipt : Opcode
  app_reaction : Opcode
  app_edit : Opcode
  app_delete : Opcode
  typing : Opcode
  presence : Opcode
  redact : Opcode
  ban : Opcode
  unban : Opcode
  kick : Opcode
  mute : Opcode
  pin : Opcode
  report : Opcode
  fed_append : Opcode
  fed_sync : Opcode
  fed_ack : Opcode
  fed_nack : Opcode
  fed_query : Opcode
  cas_put : Opcode
  cas_get : Opcode
  cas_delete : Opcode
  cas_proof : Opcode

unfoldable pub to_u16 : Opcode → ℕ
to_u16 hello = 0x0001
to_u16 hello_reply = 0x0002
to_u16 goodbye = 0x0003
to_u16 ping = 0x0004
to_u16 pong = 0x0005
to_u16 sync_request = 0x0006
to_u16 sync_response = 0x0007
to_u16 error = 0x00FF
to_u16 key_package = 0x1000
to_u16 proposal = 0x1001
to_u16 commit = 0x1002
to_u16 welcome = 0x1003
to_u16 group_info = 0x1004
to_u16 psk_proposal = 0x1005
to_u16 re_init = 0x1006
to_u16 external_commit = 0x1007
to_u16 key_package_publish = 0x1008
to_u16 key_package_fetch = 0x1009
to_u16 group_info_request = 0x100A
to_u16 app_message = 0x2000
to_u16 app_receipt = 0x2001
to_u16 app_reaction = 0x2002
to_u16 app_edit = 0x2003
to_u16 app_delete = 0x2004
to_u16 typing = 0x2005
to_u16 presence = 0x2006
to_u16 redact = 0x3000
to_u16 ban = 0x3001
to_u16 unban = 0x3002
to_u16 kick = 0x3003
to_u16 mute = 0x3004
to_u16 pin = 0x3005
to_u16 report = 0x3006
to_u16 fed_append = 0x4000
to_u16 fed_sync = 0x4001
to_u16 fed_ack = 0x4002
to_u16 fed_nack = 0x4003
to_u16 fed_query = 0x4004
to_u16 cas_put = 0x5000
to_u16 cas_get = 0x5001
to_u16 cas_delete = 0x5002
to_u16 cas_proof = 0x5003

-- A `match` on the value: the arms are tried in order.
unfoldable pub from_u16 : ℕ → Option Opcode
from_u16 value =
    if value == 0x0001
    then some hello
    else if value == 0x0002
    then some hello_reply
    else if value == 0x0003
    then some goodbye
    else if value == 0x0004
    then some ping
    else if value == 0x0005
    then some pong
    else if value == 0x0006
    then some sync_request
    else if value == 0x0007
    then some sync_response
    else if value == 0x00FF
    then some error
    else if value == 0x1000
    then some key_package
    else if value == 0x1001
    then some proposal
    else if value == 0x1002
    then some commit
    else if value == 0x1003
    then some welcome
    else if value == 0x1004
    then some group_info
    else if value == 0x1005
    then some psk_proposal
    else if value == 0x1006
    then some re_init
    else if value == 0x1007
    then some external_commit
    else if value == 0x1008
    then some key_package_publish
    else if value == 0x1009
    then some key_package_fetch
    else if value == 0x100A
    then some group_info_request
    else if value == 0x2000
    then some app_message
    else if value == 0x2001
    then some app_receipt
    else if value == 0x2002
    then some app_reaction
    else if value == 0x2003
    then some app_edit
    else if value == 0x2004
    then some app_delete
    else if value == 0x2005
    then some typing
    else if value == 0x2006
    then some presence
    else if value == 0x3000
    then some redact
    else if value == 0x3001
    then some ban
    else if value == 0x3002
    then some unban
    else if value == 0x3003
    then some kick
    else if value == 0x3004
    then some mute
    else if value == 0x3005
    then some pin
    else if value == 0x3006
    then some report
    else if value == 0x4000
    then some fed_append
    else if value == 0x4001
    then some fed_sync
    else if value == 0x4002
    then some fed_ack
    else if value == 0x4003
    then some fed_nack
    else if value == 0x4004
    then some fed_query
    else if value == 0x5000
    then some cas_put
    else if value == 0x5001
    then some cas_get
    else if value == 0x5002
    then some cas_delete
    else if value == 0x5003
    then some cas_proof
    else none

-- The comparison with `Some(Opcode::Welcome)`.
abbrev pub is_welcome : Option Opcode → Bool
is_welcome (some welcome) = true
is_welcome _ = false
