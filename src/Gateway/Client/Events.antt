-- ===== src/Gateway/Client/Events.antt =====
-- internal/gateway/eventclient.go: the handlers of the packets that Discord sends. `none` is a
-- handler that blocks for ever, on a channel that nobody made.
pub mod Sequence
pub mod Hello
use disgord.Base.{
  ℕ, zero, suc, ◌+◌, ◌%◌, List, [], ◌∷◌, ◌++◌, Option, none, some, Bool, true, false, String,
  str_eq, ◌==◌, ◌&&◌, not, if◌then◌else◌, ◌>>=◌,
}
use disgord.Gateway.Command.{OpCode, event_identify, event_resume}
use disgord.Gateway.Client.{
  Client, Identity, Outgoing, heartbeat_packet, resume_packet, identify_packet, Event, Effect,
  starts_reconnect, activates_heartbeats, wakes_connect, dispatches, sends, HandlerError,
  sequence_mismatch, bad_json, not_connected, shutting_down, Outcome, once_acquire,
}

-- `D` is the raw data of a packet. Reading it is the JSON library's part.
pub record Decoder (D : Type 0) : Type 0 where
  pub ready_session : D → Option String
  pub hello_interval : D → Option ℕ

pub record DiscordPacket (D : Type 0) : Type 0 where
  pub op : OpCode
  pub body : D
  pub sequence_number : ℕ  -- uint32
  pub event_name : String

-- The clock, whether the system shuts down while a handler waits, and whether a goroutine is in
-- prepareHeartbeating, at the other end of the unbuffered channel that activates the heartbeats; without
-- one, the send blocks.
pub record Moment : Type 0 where
  pub now : ℕ
  pub shutdown : Bool
  pub heartbeats_wait : Bool

abbrev pub next_sequence : Client → ℕ
next_sequence c = (c.sequence_number + 1) % 4294967296

unfoldable pub event_of_interest : String → List String → Bool
event_of_interest name [] = true
event_of_interest name (e ∷ es) = if str_eq e name then false else event_of_interest name es

unfoldable pub virgin_connection : Client → Bool
virgin_connection c = str_eq c.session_id "" && (c.sequence_number == 0)

module _ {D : Type 0} where
  -- The new state, and whether the packet has the sequence number that is expected.
  unfoldable pub synchronize_snr : DiscordPacket D → Client → Client × Bool
  synchronize_snr p c =
      if p.sequence_number == next_sequence c
      then (record c { sequence_number = next_sequence c }, true)
      else (c, false)

  unfoldable pub on_ready : Decoder D → DiscordPacket D → Client → Client × Bool
  on_ready dec p c = elim (dec.ready_session p.body) [
    | none ↦ (c, false)
    | some id ↦ (record c { session_id = id; ready_counter = suc c.ready_counter }, true)
  ]

  deliver : DiscordPacket D → Client → Outcome D
  deliver p c = record {
    client = c;
    effects =
        if event_of_interest p.event_name c.ignore_events
        then dispatches (record { name = p.event_name; body = p.body; shard_id = c.shard_id }) ∷ []
        else [];
    error = none;
  }

  after_ready : DiscordPacket D → Client × Bool → Outcome D
  unfolding deliver
  after_ready p (c, true) = deliver p c
  after_ready p (c, false) = record { client = c; effects = []; error = some bad_json }

  after_sync : Decoder D → DiscordPacket D → Client × Bool → Outcome D
  unfolding after_ready deliver
  after_sync dec p (c, false) = record {
    client = c;
    effects = starts_reconnect ∷ [];
    error = some sequence_mismatch;
  }
  after_sync dec p (c, true) =
      if str_eq p.event_name "READY" then after_ready p (on_ready dec p c) else deliver p c

  unfoldable pub on_discord_event : Decoder D → DiscordPacket D → Client → Outcome D
  unfolding after_sync
  on_discord_event dec p c = after_sync dec p (synchronize_snr p c)

  -- `emit`: refused before the first connection.
  unfoldable pub emit : Outgoing → Client → Outcome D
  emit o c =
      if c.have_connected_once
      then record { client = c; effects = sends o ∷ []; error = none }
      else record { client = c; effects = []; error = some not_connected }

  unfoldable pub send_heartbeat : Client → Outcome D
  send_heartbeat c = emit (heartbeat_packet c.sequence_number) c

  unfoldable pub on_heartbeat_ack : Moment → Client → Outcome D
  on_heartbeat_ack m c = record {
    client = record c { last_heartbeat_ack = m.now };
    effects = [];
    error = none;
  }

  -- The write to the once channel, behind what was sent: it blocks if there is no channel.
  wake : OpCode → Outcome D → Option (Outcome D)
  wake op o = elim (once_acquire op o.client.once_channels).1 [
    | false ↦ none
    | true ↦ some (record o {
      client = record (o.client) { once_channels = (once_acquire op o.client.once_channels).0 };
      effects = o.effects ++ wakes_connect ∷ [];
    })
  ]

  unfoldable pub send_identity_packet : Bool → Client → Option (Outcome D)
  unfolding wake
  send_identity_packet invalid_session c =
      let o = emit (identify_packet c.identity) c in
      if invalid_session then some o else wake event_identify o

  -- An error of `emit` is logged and forgotten.
  unfoldable pub send_hello_packet : Client → Option (Outcome D)
  unfolding wake
  send_hello_packet c = do
    o ← wake event_resume (emit (resume_packet c.bot_token c.session_id c.sequence_number) c)
    some (record o { error = none })

  greet : Client → Option (Outcome D)
  greet c = if virgin_connection c then send_identity_packet false c else send_hello_packet c

  unfoldable pub on_hello : Decoder D → Moment → DiscordPacket D → Client → Option (Outcome D)
  unfolding greet
  on_hello dec m p c = elim (dec.hello_interval p.body) [
    | none ↦ some (record { client = c; effects = []; error = some bad_json })
    | some interval ↦ elim m.heartbeats_wait [
      | false ↦ none
      | true ↦ do
        o ← greet (record c { heartbeat_interval = interval })
        some (record o { effects = activates_heartbeats ∷ o.effects })
    ]
  ]

  unfoldable pub on_session_invalidated : Moment → Client → Option (Outcome D)
  on_session_invalidated m c =
      let c' = record c { sequence_number = 0 } in
      if m.shutdown
      then some (record { client = c'; effects = []; error = some shutting_down })
      else send_identity_packet true c'

  -- `operationHandlers`: the handler of the operation code, or none.
  unfoldable pub handle : Decoder D → Moment → DiscordPacket D → Client → Option (Outcome D)
  handle dec m p c =
      if p.op == 0
      then some (on_discord_event dec p c)
      else if p.op == 1
      then some (send_heartbeat c)
      else if p.op == 11
      then some (on_heartbeat_ack m c)
      else if p.op == 10
      then on_hello dec m p c
      else if p.op == 9
      then on_session_invalidated m c
      else if p.op == 7
      then some (record { client = c; effects = starts_reconnect ∷ []; error = none })
      else some (record { client = c; effects = []; error = none })
