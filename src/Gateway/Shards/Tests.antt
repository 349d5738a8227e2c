-- ===== src/Gateway/Shards/Tests.antt =====
-- The theorems on the shard manager, at concrete configurations and requests.
use disgord.Base.{
  ℕ, ◌*◌, ◌/◌, ◌%◌, ◌^◌, ◌≡◌, refl, List, [], ◌∷◌, Option, none, some, true, false, arith, length,
  ◌&&◌, ◌==◌, not, if◌then◌else◌, is_some,
}
use disgord.Gateway.Command.{
  ClientPacket, RequestGuildMembersPayload, Payload, members, foreign, request_guild_members,
}
use disgord.Base.Int.{pos}
use disgord.Gateway.Shards.{
  ShardConfig, GatewayBot, ShardMngr, ShardError, configure_shard_config, find, emit_sharded,
}
use disgord.Gateway.Shards.Grouping.{elem, of_shard, IsIteration, extended}
use disgord.Gateway.Shards.Emission.{received, refuses, emit_sharded_splits}
use disgord.Gateway.Client.{Identity}
use disgord.Gateway.Shards.Cover.{IsConfigured, configure-IsConfigured}
use disgord.Gateway.Shards.Scaling.{merge_requests}
use disgord.Gateway.Shards.Scaling.Merge.{requests, others, as_one, merge_requests_lem}
use disgord.Gateway.Shards.Scaling.Resend.{Log, take_command}

abbrev bot : GatewayBot
bot = record { url = "wss://gateway"; shards = 4 }

abbrev unset : ShardConfig
unset = record {
  shard_ids = [];
  shard_count = 0;
  shard_rate_limit = pos 0;
  disable_auto_scaling = false;
  identifies_per24_h = 0;
  url = "";
}

-- This manager has two of three shards.
abbrev two_of_three : ShardConfig
two_of_three = record unset { shard_ids = 0 ∷ 1 ∷ []; shard_count = 3 }

abbrev single : ShardConfig
single = record unset { shard_ids = 0 ∷ []; shard_count = 1 }

configure-IsConfigured_example :
    let (c, error) = configure_shard_config (some bot) two_of_three in
    if length two_of_three.shard_ids == 0 && not (two_of_three.shard_count == 0)
    then (is_some error ≡ true) × (c ≡ two_of_three)
    else (error ≡ none) × IsConfigured two_of_three c
configure-IsConfigured_example = configure-IsConfigured bot two_of_three (omega arith)

-- A request for guilds of the shards 1, 2, 1 and 0.
abbrev guild : ℕ → ℕ
guild n = n * 4194304

abbrev request : RequestGuildMembersPayload
request = record {
  guild_ids = guild 1 ∷ guild 2 ∷ guild 4 ∷ guild 3 ∷ [];
  query = "";
  limit = 0;
  presences = false;
  user_ids = [];
  nonce = "";
}

in_order : IsIteration (λ rs. rs)
in_order rs v = (v, λ k. refl)

emit_sharded_splits_example :
    let mngr : ShardMngr Log = record { conf = two_of_three; shards = (0, []) ∷ (1, []) ∷ [] } in
    (m : ShardMngr Log) × (left : List ℕ) × (error : Option ShardError) × (emit_sharded take_command
        (λ rs. rs)
        request_guild_members
        (members request)
        mngr
      ≡ some (m, left, error))
    × (find 1 m.shards
        ≡ some (
            received take_command request_guild_members request []
              (extended none (of_shard 3 1 request.guild_ids))))
    × (elem (guild 2) left ≡ (
        elem (guild 2) request.guild_ids
        && refuses take_command request_guild_members request
            (find {A = Log} ((guild 2 / 2 ^ 22) % 3) ((0, []) ∷ (1, []) ∷ []))
            (of_shard 3 ((guild 2 / 2 ^ 22) % 3) request.guild_ids)))
emit_sharded_splits_example =
    emit_sharded_splits take_command request_guild_members request (λ rs. rs) two_of_three (0, [])
      (1, []) [] 1 [] (guild 2) in_order (omega arith) (unfold find in refl)

abbrev identity : Identity
identity = record { token = "secret"; shard = (0, 3); presence = none; intents = 0 }

abbrev packet : Payload → Option ClientPacket
packet p = some (record { op = 8; body = p; cmd_name = request_guild_members })

abbrev waiting : List (Option ClientPacket)
waiting =
    packet (members request)
    ∷ some (record { op = 4; body = foreign 1; cmd_name = "UPDATE_VOICE_STATE" })
    ∷ packet (members (record request { guild_ids = guild 9 ∷ []; query = "b" }))
    ∷ []

merge_requests_lem_example :
    (requests (merge_requests waiting) ≡ as_one (requests waiting))
    × (others (merge_requests waiting) ≡ others waiting)
merge_requests_lem_example = merge_requests_lem waiting

abbrev two_waiting : List (Option ClientPacket)
two_waiting =
    packet (members request) ∷ packet (members (record request { guild_ids = guild 9 ∷ [] })) ∷ []
