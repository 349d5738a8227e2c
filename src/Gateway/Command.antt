-- ===== src/Gateway/Command.antt =====
-- internal/gateway/opcode/opcodes.go, cmd/, event/event.go, util.go and packets.go: operation codes,
-- the names of the commands, and the packets that a client sends.
use disgord.Base.{ℕ, Option, List, Bool, if◌then◌else◌, String, str_eq}

abbrev pub OpCode : Type 0
OpCode = ℕ

-- `math.MaxUint16`.
abbrev pub op_none : OpCode
op_none = 65535

abbrev pub event_discord_event : OpCode
event_discord_event = 0

abbrev pub event_heartbeat : OpCode
event_heartbeat = 1

abbrev pub event_identify : OpCode
event_identify = 2

abbrev pub event_status_update : OpCode
event_status_update = 3

abbrev pub event_voice_state_update : OpCode
event_voice_state_update = 4

abbrev pub event_resume : OpCode
event_resume = 6

abbrev pub event_request_guild_members : OpCode
event_request_guild_members = 8

-- `cmd.RequestGuildMembers`, `cmd.UpdateVoiceState` and `cmd.UpdateStatus`.
abbrev pub request_guild_members : String
request_guild_members = "REQUEST_GUILD_MEMBERS"

abbrev pub update_voice_state : String
update_voice_state = "UPDATE_VOICE_STATE"

abbrev pub update_status : String
update_status = "UPDATE_STATUS"

-- `event.Heartbeat`, `event.Identify` and `event.Resume`.
abbrev pub heartbeat : String
heartbeat = "HEARTBEAT"

abbrev pub identify : String
identify = "IDENTIFY"

abbrev pub resume : String
resume = "RESUME"

pub data ClientType : Type 0 where
  client_type_event client_type_voice : ClientType

-- The operation codes of the voice client, by the names of its commands.
voice_op_code : String → OpCode
voice_op_code command =
    if str_eq command "VOICE_SPEAKING"
    then 5
    else if str_eq command "VOICE_IDENTIFY"
    then 0
    else if str_eq command "VOICE_SELECT_PROTOCOL"
    then 1
    else if str_eq command "VOICE_HEARTBEAT"
    then 3
    else if str_eq command "VOICE_RESUME"
    then 7
    else op_none

event_op_code : String → OpCode
event_op_code command =
    if str_eq command heartbeat
    then event_heartbeat
    else if str_eq command identify
    then event_identify
    else if str_eq command resume
    then event_resume
    else if str_eq command request_guild_members
    then event_request_guild_members
    else if str_eq command update_voice_state
    then event_voice_state_update
    else if str_eq command update_status
    then event_status_update
    else op_none

unfoldable pub cmd_name_to_op_code : String → ClientType → OpCode
unfolding voice_op_code event_op_code
cmd_name_to_op_code command client_type_event = event_op_code command
cmd_name_to_op_code command client_type_voice = voice_op_code command

pub record RequestGuildMembersPayload : Type 0 where
  pub guild_ids : List ℕ
  pub query : String
  pub limit : ℕ
  pub presences : Bool
  pub user_ids : List ℕ
  pub nonce : String

pub record UpdateVoiceStatePayload : Type 0 where
  pub guild_id : ℕ
  pub channel_id : ℕ
  pub self_mute : Bool
  pub self_deaf : Bool

-- `game` is the activity as the text that it is sent as.
pub record UpdateStatusPayload : Type 0 where
  pub since : Option ℕ
  pub game : Option String
  pub status : String
  pub afk : Bool

-- The dynamic type of a `CmdPayload`, and what else a packet carries. `foreign` stands for any
-- payload type but the three that the shard manager knows.
pub data Payload : Type 0 where
  members : RequestGuildMembersPayload → Payload
  voice_state : UpdateVoiceStatePayload → Payload
  presence : UpdateStatusPayload → Payload
  foreign : ℕ → Payload

pub record ClientPacket : Type 0 where
  pub op : OpCode
  pub body : Payload
  pub cmd_name : String
