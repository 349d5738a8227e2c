-- ===== src/Gateway/Client.antt =====
-- internal/gateway/client.go and eventclient.go: the state of one shard's websocket client, and the
-- values that its goroutines exchange. What runs beside a method (another goroutine, a channel, the
-- socket) is an effect that the method returns; `time.Now()` and the shutdown channel are arguments.
pub mod Events
pub mod Link
pub mod Emit
pub mod Pulse
pub mod Receive
pub mod Send
mod Tests
mod LoopTests
use disgord.Base.{
  ℕ, List, [], ◌∷◌, Option, none, some, Bool, true, false, String, ◌==◌, if◌then◌else◌,
}
use disgord.Base.Int.{pos}
use disgord.Gateway.Command.{OpCode, ClientType, Payload, client_type_event}
use disgord.Gateway.PacketQueue.{PacketQueue, new_client_pkt_queue}
use disgord.Gateway.RateLimit.{RateLimiter, new_ratelimiter}

-- `evtIdentity`, without the properties of the operating system, which are constants.
pub record Identity : Type 0 where
  pub token : String
  pub shard : ℕ × ℕ
  pub presence : Option Payload
  pub intents : ℕ

pub record Client : Type 0 where
  pub shard_id : ℕ
  pub client_type : ClientType
  pub ignore_events : List String
  pub bot_token : String
  pub endpoint : String
  pub identity : Identity
  pub session_id : String
  pub sequence_number : ℕ  -- uint32
  pub ready_counter : ℕ
  pub heartbeat_interval : ℕ
  pub last_heartbeat_ack : ℕ
  pub last_heartbeat_sent : ℕ
  pub pulsating : ℕ  -- uint8
  pub is_connected : Bool
  pub have_connected_once : Bool
  pub is_reconnecting : Bool
  pub requested_disconnect : Bool
  pub has_cancel : Bool
  pub once_channels : List OpCode
  pub ratelimit : RateLimiter
  pub message_queue : PacketQueue

-- `newClient`, for an event client with the given configuration. A limit of 0 means 20.
unfoldable pub new_client : ℕ → String → String → List String → Identity → ℕ → Client
new_client shard_id token endpoint ignored identity queue_limit = record {
  shard_id = shard_id;
  client_type = client_type_event;
  ignore_events = ignored;
  bot_token = token;
  endpoint = endpoint;
  identity = identity;
  session_id = "";
  sequence_number = 0;
  ready_counter = 0;
  heartbeat_interval = 0;
  last_heartbeat_ack = 0;
  last_heartbeat_sent = 0;
  pulsating = 0;
  is_connected = false;
  have_connected_once = false;
  is_reconnecting = false;
  requested_disconnect = false;
  has_cancel = false;
  once_channels = [];
  ratelimit = new_ratelimiter;
  message_queue = new_client_pkt_queue (pos (if queue_limit == 0 then 20 else queue_limit));
}

-- internal/gateway/oncemap.go: the channels that wait for one operation; `Acquire` takes one out.
unfoldable pub once_add : OpCode → List OpCode → List OpCode
once_add op [] = op ∷ []
once_add op (o ∷ os) = if o == op then o ∷ os else o ∷ once_add op os

unfoldable pub once_acquire : OpCode → List OpCode → List OpCode × Bool
once_acquire op [] = ([], false)
once_acquire op (o ∷ os) =
    let (rest, found) = once_acquire op os in if o == op then (os, true) else (o ∷ rest, found)

-- What a handler puts into the internal emit channel.
pub data Outgoing : Type 0 where
  heartbeat_packet : ℕ → Outgoing
  resume_packet : String → String → ℕ → Outgoing
  identify_packet : Identity → Outgoing

pub record Event (D : Type 0) : Type 0 where
  pub name : String
  pub body : D
  pub shard_id : ℕ

pub data Effect (D : Type 0) : Type 0 where
  starts_reconnect activates_heartbeats wakes_connect : Effect D
  dispatches : Event D → Effect D
  sends : Outgoing → Effect D

pub data HandlerError : Type 0 where
  sequence_mismatch bad_json not_connected shutting_down : HandlerError

pub record Outcome (D : Type 0) : Type 0 where
  pub client : Client
  pub effects : List (Effect D)
  pub error : Option HandlerError
