-- ===== src/Gateway/Client/Tests.antt =====
-- The theorems on the websocket client, at concrete clients and packets.
use disgord.Base.{
  ℕ, ◌+◌, ◌≤◌, ◌≡◌, refl, List, [], ◌∷◌, none, some, true, false, String, arith, All, length,
}
use disgord.Gateway.Command.{cmd_name_to_op_code, foreign, update_status}
use disgord.Gateway.Client.{Client, Identity, new_client}
use disgord.Gateway.Client.Events.{Decoder, DiscordPacket, Moment}
use disgord.Gateway.Client.Events.Sequence.{receive_all, IsInOrder, receive_all-IsInOrder}
use disgord.Gateway.Client.Link.{
  Attempt, Socket, runs, sent, timed_out, connected, still_trying, not_started, internal_connect,
  reconnect_loop, reconnect,
}
use disgord.Gateway.Client.Link.Backoff.{reconnect_recovers}
use disgord.Gateway.Client.Link.Stuck.{timeout_stuck}
use disgord.Gateway.Client.Pulse.{allowed_to_start_pulsating}
use disgord.Gateway.Client.Pulse.Services.{
  Pulse, started, stopped, Run, here, then_step, starts, stops, IsExclusive, Run-IsExclusive,
}
use disgord.Gateway.Client.Emit.{emit_command}
use disgord.Gateway.Client.Emit.Bounds.{IsDecided, emit_command-IsDecided}
use disgord.Gateway.RateLimit.Decisions.{new-IsLimiting}
use disgord.Gateway.RateLimit.Requests.{no_requests}
use disgord.Gateway.PacketQueue.Valid.{new-IsValid}

abbrev identity : Identity
identity = record { token = "secret"; shard = (0, 1); presence = none; intents = 513 }

abbrev fresh : Client
unfolding new_client
fresh = new_client 0 "secret" "wss://gateway" ("TYPING_START" ∷ []) identity 20

abbrev decoder : Decoder ℕ
decoder = record { ready_session = λ d. some "session"; hello_interval = λ d. some d }

abbrev packet : ℕ → String → DiscordPacket ℕ
packet n name = record { op = 0; body = 41250; sequence_number = n; event_name = name }

abbrev ready_client : Client
ready_client = record fresh {
  session_id = "session";
  sequence_number = 4294967295;
  have_connected_once = true;
}

abbrev stream : List (DiscordPacket ℕ)
stream =
    packet 1 "READY"
    ∷ packet 2 "TYPING_START"
    ∷ packet 9 "GUILD_CREATE"
    ∷ packet 3 "GUILD_CREATE"
    ∷ []

receive_all-IsInOrder_example :
    IsInOrder decoder 0 ("TYPING_START" ∷ []) 0 (receive_all decoder stream fresh)
unfolding fresh
receive_all-IsInOrder_example = receive_all-IsInOrder decoder stream fresh

abbrev prepared : Moment
prepared = record { now = 0; shutdown = false; heartbeats_wait = true }

abbrev no_dial : Attempt
no_dial = record { queueing = runs; opens = false; wait = sent; shutdown = false }

abbrev good : Attempt
good = record { queueing = runs; opens = true; wait = sent; shutdown = false }

abbrev too_slow : Attempt
too_slow = record { queueing = runs; opens = true; wait = timed_out; shutdown = false }

abbrev open_socket : Socket
open_socket = record { disconnected = false; close_fails = false }

abbrev broken_socket : Socket
broken_socket = record { disconnected = true; close_fails = true }

reconnect_recovers_example :
    let r = reconnect broken_socket (no_dial ∷ no_dial ∷ good ∷ []) ready_client in
    (r.error ≡ none)
    × (r.outcome ≡ connected)
    × (r.client.is_connected ≡ true)
    × (r.client.is_reconnecting ≡ false)
    × (length r.waits ≡ 2)
    × All (λ w. (3 ≤ w) × (w ≤ 300)) r.waits
unfolding fresh
reconnect_recovers_example =
    reconnect_recovers broken_socket (no_dial ∷ no_dial ∷ []) good [] ready_client (ground arith)
      (ground arith) refl refl refl

abbrev busy : Client
busy = record ready_client { is_reconnecting = true }

timeout_stuck_example :
    let c' = (internal_connect too_slow busy).0 in
    ((reconnect_loop 0 3 (too_slow ∷ good ∷ []) busy).outcome ≡ still_trying)
    × (reconnect open_socket (good ∷ []) c'
        ≡ record { client = c'; waits = []; outcome = not_started; error = none })
unfolding fresh
timeout_stuck_example =
    timeout_stuck open_socket 0 3 too_slow (good ∷ []) (good ∷ []) busy refl refl refl
      (ground arith) refl refl refl

-- A first status update of a client that has been connected: it is accepted and queued.
emit_command-IsDecided_example :
    IsDecided 20
      (λ i. 1600000000000000000 + i)
      update_status
      (foreign 3)
      ready_client
      no_requests
      (emit_command
        (λ p. true)
        (λ i. 1600000000000000000 + i)
        update_status
        (foreign 3)
        ready_client)
unfolding fresh new_client cmd_name_to_op_code
emit_command-IsDecided_example =
    emit_command-IsDecided 20 (λ i. 1600000000000000000 + i) update_status (foreign 3) no_requests
      (omega arith) (λ p. true) ready_client new-IsLimiting (new-IsValid 20 (omega arith)) refl refl
      refl

-- Service 7 starts, 9 tries to, and 7 stops.
abbrev quiet : Pulse
quiet = record { client = ready_client; active = [] }

abbrev services : Run quiet (stopped 7 (started 9 (started 7 quiet)))
unfolding fresh allowed_to_start_pulsating
services =
    then_step
      (then_step (then_step (here quiet) (starts 7 quiet (omega arith) refl))
        (starts 9 (started 7 quiet) (omega arith) refl))
      (stops 7 (started 9 (started 7 quiet)) refl)

Run-IsExclusive_example : IsExclusive (stopped 7 (started 9 (started 7 quiet)))
unfolding fresh
Run-IsExclusive_example = Run-IsExclusive refl refl services
