-- ===== src/Gateway/Client/Pulse/Answers.antt =====
-- Heartbeats and their answers.
use disgord.Base.{ℕ, ◌≡◌, ◌<◌, ◌≤◌, arith}
use disgord.Gateway.Client.{Client}
use disgord.Gateway.Client.Events.{Moment, on_heartbeat_ack}
use disgord.Gateway.Client.Pulse.{forces_reconnect, sends_heartbeat, start_pulse, beat}

-- A pulse that starts sends a heartbeat, whatever the client's times were before. If no answer
-- comes, the next round forces a reconnect, if time has passed since the start; if one comes at or
-- after the heartbeat, by the client's clock, the next round sends another heartbeat.
beat_answered :
    (D : Type 0) (t0 t1 t2 : ℕ) (m : Moment) (c : Client)
    → t0 < t1
    → t1 ≤ m.now
    → let (c1, first) = beat t1 (start_pulse t0 c) in
      (first ≡ sends_heartbeat)
      × ((beat t2 c1).1 ≡ forces_reconnect)
      × ((beat t2 (on_heartbeat_ack {D = D} m c1).client).1 ≡ sends_heartbeat)
unfolding beat start_pulse on_heartbeat_ack
beat_answered D t0 t1 t2 m c passed answered = ground arith
