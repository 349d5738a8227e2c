-- ===== src/Gateway.antt =====
-- internal/gateway: the websocket side, from the packets and their queue to the shards.
pub mod Command
pub mod PacketQueue
pub mod RateLimit
pub mod Client
pub mod Shards
pub mod Identify
pub mod Intents
