-- ===== src/Gateway/Client/LoopTests.antt =====
-- The goroutines that read and write (internal/gateway/client.go), at concrete packets.
use disgord.Base.{
  ℕ, ◌≡◌, refl, ◌⊎◌, List, [], ◌∷◌, ◌++◌, map, Option, none, some, true, false, ◌==◌, arith, length,
  take, if◌then◌else◌,
}
use disgord.Base.Int.{pos}
use disgord.Gateway.Command.{ClientPacket, foreign}
use disgord.Gateway.PacketQueue.{PacketQueue}
use disgord.Gateway.Client.{Client, Identity, new_client, heartbeat_packet}
use disgord.Gateway.Client.Receive.{
  Receiver, new_receiver, Round, Read, failed, packet, closed_down, reconnects, receive_loop,
}
use disgord.Gateway.Client.Receive.Errors.{Reads}
use disgord.Gateway.Client.Receive.Packets.{receive_loop_lem, all_parsed, EndsAt}
use disgord.Gateway.Client.Receive.Endings.{error_ends, bad_packets, IsBad}
use disgord.Gateway.Client.Send.{
  Emitter, new_emitter, Case, timeout, internal_emit, user_appends, user_overwrites, emit_loop,
}
use disgord.Gateway.Client.Send.Order.{commands, emit_loop-new_emitter}

abbrev identity : Identity
identity = record { token = "secret"; shard = (0, 1); presence = none; intents = 513 }

abbrev connected_client : Client
unfolding new_client
connected_client = record (new_client 0 "secret" "wss://gateway" [] identity 20) {
  has_cancel = true;
  is_connected = true;
  have_connected_once = true;
}

abbrev receiver : Receiver ℕ
receiver = new_receiver connected_client

-- A text is a number here, and 0 is no JSON.
abbrev decode : ℕ → Option ℕ
decode n = if n == 0 then none else some n

abbrev reads : Read ℕ → Round ℕ
reads r = record {
  shut_down = false;
  picks_internal = true;
  socket = record { disconnected = false; close_fails = false };
  read = r;
}

receiver-Reads : Reads receiver
unfolding connected_client
receiver-Reads = record { held = refl; running = refl; going = refl; open_chan = refl }

abbrev two_packets : List (Round ℕ)
two_packets = reads (packet 5) ∷ reads (packet 0) ∷ reads (packet 7) ∷ reads (failed none) ∷ []

receive_loop_lem_example :
    (n : ℕ) × (r' : Receiver ℕ) × (receive_loop decode true two_packets receiver ≡ some r')
    × (r'.received ≡ all_parsed decode true (take n two_packets))
    × ((n ≡ length two_packets) ⊎ EndsAt decode true n two_packets receiver r')
unfolding connected_client
receive_loop_lem_example =
    receive_loop_lem decode true two_packets receiver
      (record { held = refl; open_chan = λ e. ground arith }) refl

error_ends_example :
    (r' : Receiver ℕ) × (receive_loop decode true
        (reads (failed (some 4014)) ∷ reads (packet 5) ∷ [])
        receiver
      ≡ some r')
    × (r'.ended ≡ some closed_down)
    × (r'.receive_chan_closed ≡ true)
    × (r'.client.has_cancel ≡ false)
    × (r'.received ≡ [])
unfolding connected_client
error_ends_example =
    error_ends decode true (reads (failed (some 4014))) (reads (packet 5)) [] (some 4014) receiver
      receiver-Reads refl refl refl refl

abbrev bad : Round ℕ
bad = reads (packet 0)

abbrev ten_bad : List (Round ℕ)
ten_bad = bad ∷ bad ∷ bad ∷ bad ∷ bad ∷ bad ∷ bad ∷ bad ∷ bad ∷ bad ∷ []

is_bad : IsBad decode true bad
is_bad = (0, refl, refl, refl)

bad_packets_example :
    (before r' : Receiver ℕ) × (receive_loop decode true ten_bad receiver ≡ some before)
    × Reads before
    × (before.ended ≡ none)
    × (receive_loop decode true (ten_bad ++ bad ∷ reads (packet 5) ∷ []) receiver ≡ some r')
    × (r'.ended ≡ some reconnects)
    × (r'.received ≡ [])
bad_packets_example =
    bad_packets decode true ten_bad bad (reads (packet 5)) [] receiver receiver-Reads refl refl refl
      (
        is_bad,
        (
          is_bad,
          (is_bad, (is_bad, (is_bad, (is_bad, (is_bad, (is_bad, (is_bad, (is_bad, tt)))))))),
        ),
      )
      is_bad refl

abbrev command_8 : ℕ → ClientPacket
command_8 n = record { op = 8; body = foreign n; cmd_name = "REQUEST_GUILD_MEMBERS" }

abbrev queue : PacketQueue
queue = record { messages = command_8 1 ∷ []; limit = pos 20 }

-- The second packet of the user is over the rate limit, and takes the place of the first.
abbrev cases : List Case
cases =
    timeout true
    ∷ user_appends (command_8 2)
    ∷ timeout false
    ∷ internal_emit (heartbeat_packet 3) false
    ∷ user_overwrites (command_8 4)
    ∷ timeout false
    ∷ []

abbrev op_of : ClientPacket → ℕ
op_of p = p.op

emit_loop-new_emitter_example :
    (e : Emitter) × (emit_loop cases (new_emitter queue) ≡ some e)
    × (map op_of (commands e.written ++ e.message_queue.messages)
        ≡ map op_of (queue.messages ++ e.accepted))
emit_loop-new_emitter_example =
    emit_loop-new_emitter op_of cases queue
      (tt, (tt, (tt, (tt, ((λ m i. ground (arith, i)), (tt, tt))))))
