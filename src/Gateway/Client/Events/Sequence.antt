-- ===== src/Gateway/Client/Events/Sequence.antt =====
-- Events are taken in the order of their sequence numbers, with no gap.
use mathlib.Core.Bool.{false≢true}
use disgord.Base.{
  ℕ, zero, suc, ◌+◌, ◌%◌, ◌≡◌, ◌≢◌, refl, ◌∙◌, ap, List, [], ◌∷◌, ◌++◌, map, Option, some, Bool,
  true, false, String, str_eq, arith, length, ℕ_discrete, if◌then◌else◌, is_some, ==_iff, not, ◌&&◌,
  ◌||◌, subst, sym, ◌↔◌, Bool-cases, Option-cases, inl, inr,
}
use disgord.Gateway.Client.{
  Client, Event, Effect, Outcome, starts_reconnect, activates_heartbeats, wakes_connect, dispatches,
  sends, sequence_mismatch, HandlerError,
}
use disgord.Gateway.Client.Events.{
  Decoder, DiscordPacket, next_sequence, event_of_interest, synchronize_snr, after_sync, deliver,
  on_ready, on_discord_event,
}

-- The numbers that follow `n` as an uint32, `k` of them.
abbrev pub following : ℕ → ℕ → List ℕ
following n zero = []
following n (suc k) = (n + 1) % 4294967296 ∷ following ((n + 1) % 4294967296) k

abbrev pub last_of : ℕ → ℕ → ℕ
last_of n zero = n
last_of n (suc k) = last_of ((n + 1) % 4294967296) k

abbrev pub is_mismatch : Option HandlerError → Bool
is_mismatch (some sequence_mismatch) = true
is_mismatch _ = false

module _ {D : Type 0} where
  abbrev pub event_of : ℕ → DiscordPacket D → Event D
  event_of shard p = record { name = p.event_name; body = p.body; shard_id = shard }

  -- The events that a packet is reported as: none if its type is ignored, or if it is a READY that
  -- cannot be read.
  abbrev pub reports : Decoder D → List String → ℕ → DiscordPacket D → List (Event D)
  reports dec ignored shard p =
      if (str_eq p.event_name "READY" && not (is_some (dec.ready_session p.body)))
        || not (event_of_interest p.event_name ignored)
      then []
      else event_of shard p ∷ []

  -- The events among the effects of a handler.
  abbrev pub dispatched : List (Effect D) → List (Event D)
  dispatched [] = []
  dispatched (dispatches e ∷ fs) = e ∷ dispatched fs
  dispatched (starts_reconnect ∷ fs) = dispatched fs
  dispatched (activates_heartbeats ∷ fs) = dispatched fs
  dispatched (wakes_connect ∷ fs) = dispatched fs
  dispatched (sends o ∷ fs) = dispatched fs

  -- A packet with another number than the next is not taken: the client stays as it is, nothing
  -- is dispatched, and a reconnect is started.
  on_discord_event_gap :
      (dec : Decoder D) (p : DiscordPacket D) (c : Client)
      → p.sequence_number ≢ next_sequence c
      → on_discord_event dec p c
        ≡ record { client = c; effects = starts_reconnect ∷ []; error = some sequence_mismatch }
  unfolding on_discord_event synchronize_snr
  on_discord_event_gap dec p c h = ground arith

  -- What is known of the outcome of a packet that is taken.
  record IsTaken (dec : Decoder D) (p : DiscordPacket D) (c : Client) (o : Outcome D) : Type 0 where
    number : o.client.sequence_number ≡ c.sequence_number
    ignored : o.client.ignore_events ≡ c.ignore_events
    shard : o.client.shard_id ≡ c.shard_id
    events : dispatched o.effects ≡ reports dec c.ignore_events c.shard_id p
    no_gap : is_mismatch o.error ≡ false

  deliver-IsTaken :
      (dec : Decoder D) (p : DiscordPacket D) (c : Client)
      → (str_eq p.event_name "READY" && not (is_some (dec.ready_session p.body))) ≡ false
      → IsTaken dec p c (deliver p c)
  unfolding deliver
  deliver-IsTaken dec p c h = record {
    number = refl;
    ignored = refl;
    shard = refl;
    events = ground arith;
    no_gap = refl;
  }

  after_sync-IsTaken :
      (dec : Decoder D) (p : DiscordPacket D) (c : Client)
      → IsTaken dec p c (after_sync dec p (c, true))
  unfolding after_sync on_ready
  after_sync-IsTaken dec p c = elim (Bool-cases (str_eq p.event_name "READY")) [
    | inr other ↦ rw other (deliver-IsTaken dec p c (rw other))
    | inl ready ↦ elim (Option-cases (dec.ready_session p.body)) [
      | inl e ↦
          rw (ready, e, on_ready)
            (record {
              number = refl;
              ignored = refl;
              shard = refl;
              events = rw (ready, e);
              no_gap = refl;
            })
      | inr (id, e) ↦
          let t =
            deliver-IsTaken dec p
              (record c { session_id = id; ready_counter = suc c.ready_counter }) (rw (ready, e)) in
          rw (ready, e, on_ready)
            (record {
              number = t.number;
              ignored = t.ignored;
              shard = t.shard;
              events = t.events;
              no_gap = t.no_gap;
            })
    ]
  ]

  synchronize_snr_next :
      (p : DiscordPacket D) (c : Client)
      → p.sequence_number ≡ next_sequence c
      → synchronize_snr p c ≡ (record c { sequence_number = next_sequence c }, true)
  unfolding synchronize_snr
  synchronize_snr_next p c h = rw ((==_iff p.sequence_number (next_sequence c)).1 h)

  on_discord_event-IsTaken :
      (dec : Decoder D) (p : DiscordPacket D) (c : Client)
      → p.sequence_number ≡ next_sequence c
      → IsTaken dec p (record c { sequence_number = next_sequence c }) (on_discord_event dec p c)
  unfolding on_discord_event
  on_discord_event-IsTaken dec p c h =
      let c' = record c { sequence_number = next_sequence c } in
      subst (λ r. IsTaken dec p c' (after_sync dec p r)) (sym (synchronize_snr_next p c h))
        (after_sync-IsTaken dec p c')

  -- A packet is taken exactly when it carries the next sequence number.
  pub taken_iff :
      (dec : Decoder D) (p : DiscordPacket D) (c : Client)
      → ((on_discord_event dec p c).error ≢ some sequence_mismatch)
        ↔ (p.sequence_number ≡ next_sequence c)
  taken_iff dec p c = (taken_next, next_taken)
    where
      taken_next :
          ((on_discord_event dec p c).error ≢ some sequence_mismatch)
          → p.sequence_number ≡ next_sequence c
      taken_next taken = elim (ℕ_discrete p.sequence_number (next_sequence c)) [
        | yes e ↦ e
        | no gap ↦
            absurd (taken (ap (λ (o : Outcome D). o.error) (on_discord_event_gap dec p c gap)))
      ]

      next_taken :
          p.sequence_number ≡ next_sequence c
          → (on_discord_event dec p c).error ≢ some sequence_mismatch
      next_taken e refused =
          let t = on_discord_event-IsTaken dec p c e in
          false≢true (sym t.no_gap ∙ ap is_mismatch refused)

  -- A stream of event packets, one after the other. The results are the packets that no sequence
  -- error refused, the events dispatched, and the client at the end.
  unfoldable pub receive_all :
      Decoder D → List (DiscordPacket D) → Client → List (DiscordPacket D) × List (Event D) × Client
  receive_all dec [] c = ([], [], c)
  receive_all dec (p ∷ ps) c =
      let o = on_discord_event dec p c in
      let (taken, events, c') = receive_all dec ps o.client in
      ((if is_mismatch o.error then taken else p ∷ taken), dispatched o.effects ++ events, c')

  abbrev pub all_reports : Decoder D → List String → ℕ → List (DiscordPacket D) → List (Event D)
  all_reports dec ignored shard [] = []
  all_reports dec ignored shard (p ∷ ps) =
      reports dec ignored shard p ++ all_reports dec ignored shard ps

  pub record IsInOrder (dec : Decoder D) (n : ℕ) (ignored : List String) (shard : ℕ)
      (r : List (DiscordPacket D) × List (Event D) × Client) : Type 0 where
    pub numbers : map (λ p. p.sequence_number) r.0 ≡ following n (length r.0)
    pub final : r.2.sequence_number ≡ last_of n (length r.0)
    pub events : r.1 ≡ all_reports dec ignored shard r.0

  taken_step :
      (dec : Decoder D) (p : DiscordPacket D) (ps : List (DiscordPacket D)) (c : Client)
      → p.sequence_number ≡ next_sequence c
      → (let o = on_discord_event dec p c in
          IsInOrder dec o.client.sequence_number o.client.ignore_events o.client.shard_id
            (receive_all dec ps o.client))
      → IsInOrder dec c.sequence_number c.ignore_events c.shard_id (receive_all dec (p ∷ ps) c)
  unfolding receive_all
  taken_step dec p ps c h r =
      let t = on_discord_event-IsTaken dec p c h in
      rw t.no_gap (record {
        numbers = ground (arith, t.number, r.numbers);
        final =
            r.final
            ∙ ap (λ n. last_of n (length (receive_all dec ps (on_discord_event dec p c).client).0))
                t.number;
        events = rw (t.events, r.events, t.ignored, t.shard);
      })

  missed_step :
      (dec : Decoder D) (p : DiscordPacket D) (ps : List (DiscordPacket D)) (c : Client)
      → p.sequence_number ≢ next_sequence c
      → IsInOrder dec c.sequence_number c.ignore_events c.shard_id (receive_all dec ps c)
      → IsInOrder dec c.sequence_number c.ignore_events c.shard_id (receive_all dec (p ∷ ps) c)
  unfolding receive_all
  missed_step dec p ps c h r = rw (on_discord_event_gap dec p c h) r

  -- The packets of a stream that are taken carry consecutive sequence numbers, from the one behind
  -- the client's (as uint32), and the client ends at the last of them. What is dispatched is just
  -- the events of those packets, in their order, but for ignored types and unreadable READYs.
  pub receive_all-IsInOrder :
      (dec : Decoder D) (ps : List (DiscordPacket D)) (c : Client)
      → IsInOrder dec c.sequence_number c.ignore_events c.shard_id (receive_all dec ps c)
  receive_all-IsInOrder dec [] c =
      unfold receive_all in record { numbers = refl; final = refl; events = refl }
  receive_all-IsInOrder dec (p ∷ ps) c = elim (ℕ_discrete p.sequence_number (next_sequence c)) [
    | yes hit ↦
        taken_step dec p ps c hit (receive_all-IsInOrder dec ps (on_discord_event dec p c).client)
    | no miss ↦ missed_step dec p ps c miss (receive_all-IsInOrder dec ps c)
  ]
