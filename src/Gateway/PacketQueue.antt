-- ===== src/Gateway/PacketQueue.antt =====
-- internal/gateway/queue.go: the queue of outgoing packets. A method holds the queue's lock
-- throughout, but for `Add` of a status update, which takes it a second time after `AddByOverwrite`
-- fails: `append_packet` is that second part, and `add` is both where no other call comes between them.
pub mod Valid
pub mod Flush
mod Tests
use mathlib.Core.Option
use disgord.Base.{
  ℕ, suc, ◌+◌, List, [], ◌∷◌, ◌++◌, Option, none, some, Bool, true, false, length, ◌==◌,
  if◌then◌else◌, is_some,
}
use disgord.Base.Int.{ℤ, pos, negsuc, eq_pos}
use disgord.Util.Shift.{shift_left}
use disgord.Gateway.Command.{ClientPacket, event_status_update}

pub record PacketQueue : Type 0 where
  pub messages : List ClientPacket
  pub limit : ℤ

pub data QueueError : Type 0 where
  no_existing_op queue_full : QueueError

-- A limit of 0 is stored as -1, which no length equals: no limit.
unfoldable pub new_client_pkt_queue : ℤ → PacketQueue
new_client_pkt_queue limit = record {
  messages = [];
  limit = if eq_pos 0 limit then negsuc 0 else limit;
}

is_none {ℓ} : {A : Type ℓ} → List A → Bool
is_none [] = true
is_none (x ∷ xs) = false

unfoldable pub is_empty : PacketQueue → Bool
unfolding is_none
is_empty c = is_none c.messages

-- The loop of `AddByOverwrite`: the first packet with the operation code is replaced.
unfoldable pub overwrite : ClientPacket → List ClientPacket → Option (List ClientPacket)
overwrite msg [] = none
overwrite msg (m ∷ ms) =
    let rest = overwrite msg ms in
    if m.op == msg.op then some (msg ∷ ms) else Option.map (λ ms'. m ∷ ms') rest

unfoldable pub add_by_overwrite : ClientPacket → PacketQueue → PacketQueue × Option QueueError
add_by_overwrite msg c = elim (overwrite msg c.messages) [
  | none ↦ (c, some no_existing_op)
  | some ms ↦ (record c { messages = ms }, none)
]

-- `Add` from its own lock on.
unfoldable pub append_packet : ClientPacket → PacketQueue → PacketQueue × Option QueueError
append_packet msg c =
    if eq_pos (length c.messages) c.limit
    then (c, some queue_full)
    else (record c { messages = c.messages ++ msg ∷ [] }, none)

after_overwrite : ClientPacket → PacketQueue × Option QueueError → PacketQueue × Option QueueError
unfolding append_packet
after_overwrite msg (c, none) = (c, none)
after_overwrite msg (c, some e) = append_packet msg c

-- `Add`, if no other call comes between its two locks.
unfoldable pub add : ClientPacket → PacketQueue → PacketQueue × Option QueueError
unfolding after_overwrite append_packet
add msg c =
    if msg.op == event_status_update
    then after_overwrite msg (add_by_overwrite msg c)
    else append_packet msg c

-- `cb` sends the packet, or says why it cannot. `none` outside is a panic, `some` inside an error.
module _ {E : Type 0} where
  try_first :
      (ClientPacket → Option E) → List ClientPacket → PacketQueue → Option (PacketQueue × Option E)
  try_first cb [] c = some (c, none)
  try_first cb (m ∷ ms) c = elim (cb m) [
    | some e ↦ some (c, some e)
    | none ↦ Option.map (λ rest. (record c { messages = rest }, none)) (shift_left (m ∷ ms))
  ]

  unfoldable pub try : (ClientPacket → Option E) → PacketQueue → Option (PacketQueue × Option E)
  unfolding try_first
  try cb c = try_first cb c.messages c

unfoldable pub steal : PacketQueue → PacketQueue × List ClientPacket
steal c = (record c { messages = [] }, c.messages)
