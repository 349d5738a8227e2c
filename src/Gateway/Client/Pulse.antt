-- ===== src/Gateway/Client/Pulse.antt =====
-- internal/gateway/client.go: who sends the heartbeats of a client, and when a missing answer to one
-- forces a reconnect. A service is a `prepareHeartbeating` that runs, under the number it drew.
pub mod Services
pub mod Answers
use disgord.Base.{ℕ, Bool, ltb, ◌==◌, if◌then◌else◌}
use disgord.Gateway.Client.{Client}

unfoldable pub allowed_to_start_pulsating : ℕ → Client → Client × Bool
allowed_to_start_pulsating service c =
    let c' = if c.pulsating == 0 then record c { pulsating = service } else c in
    (c', c'.pulsating == service)

unfoldable pub stop_pulsating : ℕ → Client → Client
stop_pulsating service c = if c.pulsating == service then record c { pulsating = 0 } else c

-- What one round of the loop of `pulsate` does: a reconnect and the end of the loop, or a heartbeat.
pub data Beat : Type 0 where
  forces_reconnect sends_heartbeat : Beat

-- The start of `pulsate`, before the loop.
unfoldable pub start_pulse : ℕ → Client → Client
start_pulse now c = record c { last_heartbeat_sent = now; last_heartbeat_ack = now }

unfoldable pub beat : ℕ → Client → Client × Beat
beat now c =
    if ltb c.last_heartbeat_ack c.last_heartbeat_sent
    then (c, forces_reconnect)
    else (record c { last_heartbeat_sent = now }, sends_heartbeat)
