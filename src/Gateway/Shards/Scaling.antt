-- ===== src/Gateway/Shards/Scaling.antt =====
-- internal/gateway/sharding.go (scale, redistributeMsgs): more shards when Discord asks for them, and
-- the packets that wait are sent anew.
pub mod Merge
pub mod Resend
use disgord.Base.{
  ℕ, zero, suc, ◌+◌, ◌-◌, List, [], ◌∷◌, ◌++◌, map, Option, none, some, Bool, String, ◌==◌, length,
  if◌then◌else◌, ◌>>=◌,
}
use disgord.Gateway.Command.{
  ClientPacket, Payload, RequestGuildMembersPayload, members, voice_state, presence, foreign,
  event_request_guild_members,
}
use disgord.Gateway.Client.Emit.{EmitError}
use disgord.Gateway.Shards.{ShardConfig, GatewayBot, ShardMngr, ShardError, count_up, emit_sharded}

-- The loop of `scale` over the new shard ids. It starts at the last id that is there; without ids
-- its start wraps around to the largest uint, and it does not run.
abbrev pub new_ids : ℕ → ℕ → List ℕ
new_ids present shards =
    if present == 0 then [] else count_up (present - 1) (shards - (present - 1))

unfoldable pub scale_config : GatewayBot → ShardConfig → ShardConfig
scale_config bot conf =
    let added = new_ids (length conf.shard_ids) bot.shards in
    record conf {
      url = bot.url;
      shard_ids = conf.shard_ids ++ added;
      shard_count = conf.shard_count + length added;
    }

abbrev pub op_to_merge : ℕ
op_to_merge = event_request_guild_members

body_request : Payload → Option RequestGuildMembersPayload
body_request (members r) = some r
body_request (voice_state v) = none
body_request (presence p) = none
body_request (foreign n) = none

-- The guards of both loops: a packet that is there, with the operation code and the payload type of
-- a request for members.
unfoldable pub request_of : Option ClientPacket → Option RequestGuildMembersPayload
unfolding body_request
request_of none = none
request_of (some m) = if m.op == op_to_merge then body_request m.body else none

-- The inner loop: the later requests for members give their guilds to `r`, and are struck out. Each
-- packet has a payload object of its own.
unfoldable pub absorb :
    RequestGuildMembersPayload
    → List (Option ClientPacket)
    → RequestGuildMembersPayload × List (Option ClientPacket)
absorb r [] = (r, [])
absorb r (x ∷ xs) = elim (request_of x) [
  | none ↦ let (r', xs') = absorb r xs in (r', x ∷ xs')
  | some r2 ↦
      let (r', xs') = absorb (record r { guild_ids = r.guild_ids ++ r2.guild_ids }) xs in
      (r', none ∷ xs')
]

-- The packet with the payload that its own has become.
with_request : Option ClientPacket → RequestGuildMembersPayload → Option ClientPacket
with_request none r = none
with_request (some m) r = some (record m { body = members r })

-- The outer loop, on as much fuel as there are entries.
merge_from : ℕ → List (Option ClientPacket) → List (Option ClientPacket)
unfolding with_request
merge_from n [] = []
merge_from zero (x ∷ xs) = x ∷ xs
merge_from (suc n) (x ∷ xs) = elim (request_of x) [
  | none ↦ x ∷ merge_from n xs
  | some r ↦ let (r', xs') = absorb r xs in with_request x r' ∷ merge_from n xs'
]

unfoldable pub merge_requests : List (Option ClientPacket) → List (Option ClientPacket)
unfolding merge_from
merge_requests xs = merge_from (length xs) xs

module _ {S : Type 0} (emit : String → Payload → S → S × Option EmitError)
    (order : List (ℕ × List ℕ) → List (ℕ × List ℕ)) where
  -- The last loop goes through the entries from the last to the first; an error is dropped.
  unfoldable pub resend : List (Option ClientPacket) → ShardMngr S → Option (ShardMngr S × List ℕ)
  resend [] m = some (m, [])
  resend (none ∷ xs) m = resend xs m
  resend (some p ∷ xs) m = do
    (m', later) ← resend xs m
    (m'', ids, error) ← emit_sharded emit order p.cmd_name p.body m'
    some (m'', later ++ ids)

  -- Every queue is stolen, the shards are scaled, and what was stolen is merged and sent.
  unfoldable pub steal_all :
      (S → S × List ClientPacket) → List (ℕ × S) → List (ℕ × S) × List (Option ClientPacket)
  steal_all steal [] = ([], [])
  steal_all steal ((k, s) ∷ ss) =
      let (s', ms) = steal s in
      let (ss', rest) = steal_all steal ss in ((k, s') ∷ ss', map some ms ++ rest)

  unfoldable pub redistribute_msgs :
      (S → S × List ClientPacket)
      → (ShardMngr S → ShardMngr S)
      → ShardMngr S
      → Option (ShardMngr S × List ℕ)
  redistribute_msgs steal scale_shards m =
      let (shards, messages) = steal_all steal m.shards in
      resend (merge_requests messages) (scale_shards (record m { shards = shards }))
