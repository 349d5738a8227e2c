-- ===== src/Gateway/Client/Emit.antt =====
-- internal/gateway/client.go (queueRequest) and eventclient.go (SetPresence, Emit): a command of the
-- user passes the rate limit and is queued. A panic is `none`.
pub mod Bounds
use disgord.Base.{
  ℕ, Option, none, some, Bool, true, false, String, str_eq, ◌==◌, not, if◌then◌else◌, ◌>>=◌,
}
use disgord.Gateway.Command.{ClientPacket, Payload, cmd_name_to_op_code, op_none, update_status}
use disgord.Gateway.PacketQueue.{PacketQueue, QueueError, add, add_by_overwrite}
use disgord.Gateway.RateLimit.{request}
use disgord.Gateway.Client.{Client}

pub data EmitError : Type 0 where
  not_marshalled never_connected unsupported_command rate_limited : EmitError
  not_queued : QueueError → EmitError

-- What `queueRequest` makes of the queue's answer, for an accepted request and for another one.
queued : Client → PacketQueue × Option QueueError → Client × Option EmitError
queued c (q, none) = (record c { message_queue = q }, none)
queued c (q, some e) = (record c { message_queue = q }, some (not_queued e))

overwritten : Client → PacketQueue × Option QueueError → Client × Option EmitError
overwritten c (q, none) = (record c { message_queue = q }, none)
overwritten c (q, some e) = (record c { message_queue = q }, some rate_limited)

enqueue : ClientPacket → Bool → Client → Client × Option EmitError
unfolding queued overwritten
enqueue p accepted c =
    if accepted
    then queued c (add p c.message_queue)
    else overwritten c (add_by_overwrite p c.message_queue)

unfoldable pub queue_request :
    (ℕ → ℕ) → String → Payload → Client → Option (Client × Option EmitError)
unfolding enqueue
queue_request clock command body c =
    let op = cmd_name_to_op_code command c.client_type in
    let send = do
      (rl, accepted) ← request clock command c.ratelimit
      some (
          enqueue (record { op = op; body = body; cmd_name = command }) accepted
            (record c { ratelimit = rl }))
    in if not c.have_connected_once
      then some (c, some never_connected)
      else if op == op_none
      then some (c, some unsupported_command)
      else send

-- Whether a payload can be written as JSON is the JSON library's part.
module _ (marshals : Payload → Bool) where
  unfoldable pub set_presence : Payload → Client → Client × Option EmitError
  set_presence body c =
      if marshals body
      then (record c { identity = record (c.identity) { presence = some body } }, none)
      else (c, some not_marshalled)

  after_presence :
      (ℕ → ℕ) → String → Payload → Client × Option EmitError → Option (Client × Option EmitError)
  after_presence clock command body (c, none) = queue_request clock command body c
  after_presence clock command body (c, some e) = some (c, some e)

  unfoldable pub emit_command :
      (ℕ → ℕ) → String → Payload → Client → Option (Client × Option EmitError)
  unfolding after_presence set_presence
  emit_command clock command body c =
      if str_eq command update_status
      then after_presence clock command body (set_presence body c)
      else queue_request clock command body c
