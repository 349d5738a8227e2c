-- ===== src/Gateway/Client/Emit/Bounds.antt =====
-- internal/gateway/client.go (queueRequest), eventclient.go: what becomes of a command, by the log of the
-- limiter. No other goroutine uses the queue meanwhile.
use disgord.Base.{
  ℕ, ◌≡◌, refl, Option, none, some, Bool, true, false, String, str_eq, Bool-cases, inl, inr, ◌==◌,
  subst, sym,
}
use disgord.Gateway.Command.{Payload, ClientPacket, cmd_name_to_op_code, op_none, update_status}
use disgord.Gateway.PacketQueue.Valid.{IsValid, add-IsValid, add_by_overwrite-IsValid}
use disgord.Gateway.PacketQueue.{PacketQueue, QueueError, add, add_by_overwrite}
use disgord.Gateway.RateLimit.Decisions.{Log, IsLimiting, IsForward, decide, request-decide}
use disgord.Gateway.Client.{Client}
use disgord.Gateway.Client.Emit.{
  EmitError, queue_request, set_presence, after_presence, emit_command, enqueue, queued,
  overwritten, rate_limited, not_queued,
}

-- The packet of a command.
abbrev pub packet_of : String → Payload → Client → ClientPacket
packet_of command body c = record {
  op = cmd_name_to_op_code command c.client_type;
  body = body;
  cmd_name = command;
}

-- The queue and the error at the end of a command.
abbrev pub outcome_of : Client × Option EmitError → PacketQueue × Option EmitError
outcome_of (c, e) = (c.message_queue, e)

-- The queue afterwards, and the error: an accepted command is added, another one can only overwrite.
abbrev pub answer : ClientPacket → Bool → PacketQueue → PacketQueue × Option EmitError
answer p true q =
    let (q', e) = add p q in (q', elim e [ none ↦ none | some x ↦ some (not_queued x) ])
answer p false q =
    let (q', e) = add_by_overwrite p q in (q', elim e [ none ↦ none | some x ↦ some rate_limited ])

-- How a command ends: without a panic, with the answer of the queue by the decision of the log, a limiter
-- that goes on with the log of that decision, and a queue within its bounds.
pub record IsDecided (n : ℕ) (clock : ℕ → ℕ) (command : String) (body : Payload) (c : Client)
    (l : Log) (r : Option (Client × Option EmitError)) : Type 0 where
  pub after : Client
  pub error : Option EmitError
  pub returns : r ≡ some (after, error)
  pub limiting : IsLimiting after.ratelimit (decide clock command l).0
  pub answers :
      outcome_of (after, error)
      ≡ answer (packet_of command body c) (decide clock command l).1 c.message_queue
  pub within : IsValid n after.message_queue

-- The client takes the queue over, and keeps its limiter.
queued_parts :
    (c : Client) (r : PacketQueue × Option QueueError)
    → (outcome_of (queued c r) ≡ (r.0, elim r.1 [ none ↦ none | some x ↦ some (not_queued x) ]))
      × ((queued c r).0.ratelimit ≡ c.ratelimit)
unfolding queued
queued_parts c (q, none) = (refl, refl)
queued_parts c (q, some e) = (refl, refl)

overwritten_parts :
    (c : Client) (r : PacketQueue × Option QueueError)
    → (outcome_of (overwritten c r) ≡ (r.0, elim r.1 [ none ↦ none | some x ↦ some rate_limited ]))
      × ((overwritten c r).0.ratelimit ≡ c.ratelimit)
unfolding overwritten
overwritten_parts c (q, none) = (refl, refl)
overwritten_parts c (q, some e) = (refl, refl)

enqueue_parts :
    (p : ClientPacket) (accepted : Bool) (c : Client)
    → (outcome_of (enqueue p accepted c) ≡ answer p accepted c.message_queue)
      × ((enqueue p accepted c).0.ratelimit ≡ c.ratelimit)
unfolding enqueue
enqueue_parts p true c = queued_parts c (add p c.message_queue)
enqueue_parts p false c = overwritten_parts c (add_by_overwrite p c.message_queue)

answer-IsValid :
    (n : ℕ) (p : ClientPacket) (accepted : Bool) (q : PacketQueue)
    → IsValid n q
    → IsValid n (answer p accepted q).0
answer-IsValid n p true q v = add-IsValid n p q v
answer-IsValid n p false q v = add_by_overwrite-IsValid n p q v

module _ (n : ℕ) (clock : ℕ → ℕ) (command : String) (body : Payload) (l : Log)
    (fw : IsForward clock) where
  queue_request-IsDecided :
      (c : Client)
      → IsLimiting c.ratelimit l
      → IsValid n c.message_queue
      → c.have_connected_once ≡ true
      → (cmd_name_to_op_code command c.client_type == op_none) ≡ false
      → IsDecided n clock command body c l (queue_request clock command body c)
  unfolding queue_request
  queue_request-IsDecided c h v once known =
      let (rl, e, h') = request-decide clock command c.ratelimit l fw h in
      let c1 = record c { ratelimit = rl } in
      let p = packet_of command body c in
      let accepted = (decide clock command l).1 in
      let r = enqueue p accepted c1 in
      let (a, k) = enqueue_parts p accepted c1 in
      record {
        after = r.0;
        error = r.1;
        returns = rw (once, known, e) refl;
        limiting = subst (λ x. IsLimiting x (decide clock command l).0) (sym k) h';
        answers = a;
        within =
            subst (λ (x : PacketQueue × Option EmitError). IsValid n x.0) (sym a)
              (answer-IsValid n p accepted c.message_queue v);
      }

  -- A known command of a client that has been connected, whose limiter goes by the log `l`, and whose
  -- payload can be written as JSON, does not panic, if the clock does not run backwards. If
  -- the log leaves room for it, it is added to the queue, and else it can only overwrite a packet with
  -- its operation code; an error is returned exactly if that fails. The limiter goes on with the log of
  -- this decision, and the queue keeps its bounds.
  pub emit_command-IsDecided :
      (marshals : Payload → Bool) (c : Client)
      → IsLimiting c.ratelimit l
      → IsValid n c.message_queue
      → c.have_connected_once ≡ true
      → (cmd_name_to_op_code command c.client_type == op_none) ≡ false
      → marshals body ≡ true
      → IsDecided n clock command body c l (emit_command marshals clock command body c)
  unfolding emit_command set_presence after_presence
  emit_command-IsDecided marshals c h v once known good =
      elim (Bool-cases (str_eq command update_status)) [
        | inr other ↦ rw other (queue_request-IsDecided c h v once known)
        | inl status ↦
            let c1 : Client = record c {
              identity = record (c.identity) { presence = some body };
            } in
            let d = queue_request-IsDecided c1 h v once known in
            rw (status, good)
              (record {
                after = d.after;
                error = d.error;
                returns = d.returns;
                limiting = d.limiting;
                answers = d.answers;
                within = d.within;
              })
      ]
