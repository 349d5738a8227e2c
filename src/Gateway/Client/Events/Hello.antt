-- ===== src/Gateway/Client/Events/Hello.antt =====
-- How a session starts: Discord says hello, and the client identifies itself or resumes.
use disgord.Base.{ℕ, ◌≡◌, ◌≢◌, refl, ◌↔◌, List, [], ◌∷◌, none, some, true, false, if◌then◌else◌}
use disgord.Gateway.Command.{OpCode, event_identify, event_resume}
use disgord.Gateway.Client.{
  Client, Outgoing, resume_packet, identify_packet, activates_heartbeats, wakes_connect, sends,
  Outcome, sequence_mismatch,
}
use disgord.Gateway.Client.Events.{
  Decoder, DiscordPacket, Moment, virgin_connection, on_session_invalidated, emit,
  send_identity_packet, on_discord_event,
}
use disgord.Gateway.Client.Events.Sequence.{taken_iff}

-- A client that `internalConnect` has prepared: both once channels are registered, and the socket
-- has been opened.
abbrev pub connecting : Client → Client
connecting c = record c {
  once_channels = event_identify ∷ event_resume ∷ [];
  have_connected_once = true;
}

-- What the client answers.
abbrev pub greeting : Client → Outgoing
greeting c =
    if virgin_connection c
    then identify_packet c.identity
    else resume_packet c.bot_token c.session_id c.sequence_number

module _ {D : Type 0} where
  abbrev answered : Client → ℕ → List OpCode → Outcome D
  answered c interval left = record {
    client = record (connecting c) { heartbeat_interval = interval; once_channels = left };
    effects = activates_heartbeats ∷ sends (greeting c) ∷ wakes_connect ∷ [];
    error = none;
  }

  -- An invalidated session starts its numbers again: the client identifies itself anew with the
  -- same identity, and of the event packets that follow just that with number 1 is taken.
  on_session_invalidated_restarts :
      (dec : Decoder D) (m : Moment) (p : DiscordPacket D) (c : Client)
      → c.have_connected_once ≡ true
      → m.shutdown ≡ false
      → (o : Outcome D) × (on_session_invalidated m c ≡ some o)
        × (o.effects ≡ sends (identify_packet c.identity) ∷ [])
        × (o.error ≡ none)
        × (((on_discord_event dec p o.client).error ≢ some sequence_mismatch)
            ↔ (p.sequence_number ≡ 1))
  unfolding on_session_invalidated send_identity_packet emit
  on_session_invalidated_restarts dec m p c h s = (
    record {
      client = record c { sequence_number = 0 };
      effects = sends (identify_packet c.identity) ∷ [];
      error = none;
    },
    rw (s, h),
    refl,
    refl,
    taken_iff dec p (record c { sequence_number = 0 }),
  )
