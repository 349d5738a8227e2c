-- ===== src/Gateway/Client/Send.antt =====
-- internal/gateway/client.go (emitter): the goroutine that writes to the socket what is queued. A round
-- is one run of its loop; which case its select takes, whether a write fails, and what users emit
-- between two rounds, come from outside. A user's command does one of two things to the queue, under
-- its lock: it is appended (the end of `Add`), or it overwrites one with its operation code (the start
-- of `Add` for a presence, and any command over the rate limit). A panic is `none`.
pub mod Order
use disgord.Base.{
  ℕ, List, [], ◌∷◌, ◌++◌, Option, none, some, Bool, true, false, is_some, ◌||◌, if◌then◌else◌,
  ◌>>=◌,
}
use disgord.Gateway.Command.{ClientPacket}
use disgord.Gateway.PacketQueue.{PacketQueue, append_packet, add_by_overwrite, try, is_empty}
use disgord.Gateway.Client.{Outgoing}

-- What is written: a command of the user, or what a handler has put into the internal channel.
pub data Written : Type 0 where
  command : ClientPacket → Written
  internal : Outgoing → Written

pub data EmitterEnd : Type 0 where
  stopped reconnects : EmitterEnd

-- `cancelled` says that `internal` is cancelled; `accepted` are the packets of users that have been
-- appended since the emitter started, `written` what the socket has.
pub record Emitter : Type 0 where
  pub message_queue : PacketQueue
  pub cancelled : Bool
  pub written : List Written
  pub accepted : List ClientPacket
  pub ended : Option EmitterEnd

abbrev pub new_emitter : PacketQueue → Emitter
new_emitter q = record {
  message_queue = q;
  cancelled = false;
  written = [];
  accepted = [];
  ended = none;
}

-- The cases of the select, with whether the write fails, and what a user does with the queue.
pub data Case : Type 0 where
  ctx_done internal_done channel_closed : Case
  timeout : Bool → Case
  internal_emit : Outgoing → Bool → Case
  user_appends user_overwrites : ClientPacket → Case

pub data WriteError : Type 0 where
  write_error : WriteError

-- `write`
unfoldable pub write : Bool → Written → Emitter → Emitter
write fails msg e =
    if fails then record e { cancelled = true } else record e { written = e.written ++ (msg ∷ []) }

-- `write`, as the queue calls it
unfoldable pub write_result : Bool → ClientPacket → Option WriteError
write_result fails msg = if fails then some write_error else none

-- what the queue tries to write
unfoldable pub write_first : Bool → List ClientPacket → Emitter → Emitter
write_first fails [] e = e
write_first fails (m ∷ ms) e = write fails (command m) e

-- after 300 ms
unfoldable pub write_queued : Bool → Emitter → Option Emitter
write_queued fails e = if is_empty e.message_queue then some e else do
  (q, error) ← try (write_result fails) e.message_queue
  some (record (write_first fails e.message_queue.messages e) { message_queue = q })

unfoldable pub accept : ClientPacket → Emitter → Emitter
accept msg e =
    let (q, error) = append_packet msg e.message_queue in
    if is_some error
    then record e { message_queue = q }
    else record e { message_queue = q; accepted = e.accepted ++ (msg ∷ []) }

-- One round of an emitter that has not ended. A case that is not ready is not taken.
unfoldable pub emit_round : Case → Emitter → Option Emitter
emit_round ctx_done e = some (record e { ended = some stopped })
emit_round internal_done e = some (if e.cancelled then record e { ended = some reconnects } else e)
emit_round channel_closed e = some e
emit_round (timeout fails) e = write_queued fails e
emit_round (internal_emit o fails) e = some (write fails (internal o) e)
emit_round (user_appends msg) e = some (accept msg e)
emit_round (user_overwrites msg) e =
    some (record e { message_queue = (add_by_overwrite msg e.message_queue).0 })

unfoldable pub emit_loop : List Case → Emitter → Option Emitter
emit_loop [] e = some e
emit_loop (i ∷ is) e = elim e.ended [
  | some x ↦ some e
  | none ↦ do e' ← emit_round i e; emit_loop is e'
]
