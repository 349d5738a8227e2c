-- ===== src/Gateway/Shards/Scaling/Resend.antt =====
-- The packets of a manager with one shard, when they are sent anew, and the count after scaling.
use disgord.Base.{
  ℕ, zero, suc, ◌-◌, ◌≤◌, ◌≡◌, refl, ◌∙◌, ap, List, [], ◌∷◌, ◌++◌, Option, none, some, String,
  arith, length,
}
use disgord.Gateway.Command.{ClientPacket, Payload, members, voice_state, presence, foreign}
use disgord.Gateway.Client.Emit.{EmitError}
use disgord.Gateway.Shards.{ShardConfig, GatewayBot, ShardMngr, count_up}
use disgord.Gateway.Shards.Scaling.{new_ids, scale_config}

-- A shard that takes every command, and keeps what it took in order.
abbrev pub Log : Type 0
Log = List (String × Payload)

abbrev pub take_command : String → Payload → Log → Log × Option EmitError
take_command cmd p log = (log ++ (cmd, p) ∷ [], none)

abbrev pub commands : List (Option ClientPacket) → Log
commands [] = []
commands (none ∷ xs) = commands xs
commands (some p ∷ xs) = (p.cmd_name, p.body) ∷ commands xs

abbrev pub reversed : Log → Log
reversed [] = []
reversed (c ∷ cs) = reversed cs ++ c ∷ []

-- The guilds of the requests for members, by packet, the last packet first.
abbrev pub guilds_of : Payload → List ℕ
guilds_of (members r) = r.guild_ids
guilds_of (voice_state v) = []
guilds_of (presence p) = []
guilds_of (foreign n) = []

abbrev pub all_guilds : Log → List ℕ
all_guilds [] = []
all_guilds ((cmd, p) ∷ cs) = all_guilds cs ++ guilds_of p

abbrev pub IsKnown : Payload → Type 0
IsKnown (members r) = Unit
IsKnown (voice_state v) = Unit
IsKnown (presence p) = Unit
IsKnown (foreign n) = ⊥

module _ (order : List (ℕ × List ℕ) → List (ℕ × List ℕ)) (conf : ShardConfig) where
  abbrev pub one_shard : Log → ShardMngr Log
  one_shard log = record { conf = conf; shards = (0, log) ∷ [] }

length-count_up : (i n : ℕ) → length (count_up i n) ≡ n
unfolding count_up
length-count_up i zero = refl
length-count_up i (suc n) = ap suc (length-count_up (suc i) n)

new_ids_lem :
    (n shards : ℕ) → suc n ≤ shards → new_ids (suc n) shards ≡ n ∷ count_up (suc n) (shards - suc n)
unfolding count_up
new_ids_lem n shards more =
    let split : shards - n ≡ suc (shards - suc n) = omega arith in
    let start : new_ids (suc n) shards ≡ count_up n (shards - n) = ground arith in
    start ∙ ap (count_up n) split

-- Scaling a manager that has the shards 0 to `n`, and so many in its count, to the number that
-- Discord asks for: the count ends one too high, and the last shard id is there twice.
scale_config_lem :
    (bot : GatewayBot) (conf : ShardConfig) (n : ℕ)
    → conf.shard_ids ≡ count_up 0 (suc n)
    → conf.shard_count ≡ suc n
    → suc n ≤ bot.shards
    → ((scale_config bot conf).shard_count ≡ suc bot.shards)
      × ((scale_config bot conf).shard_ids
          ≡ count_up 0 (suc n) ++ n ∷ count_up (suc n) (bot.shards - suc n))
unfolding scale_config
scale_config_lem bot conf n ids count more =
    let present : length conf.shard_ids ≡ suc n = ap length ids ∙ length-count_up 0 (suc n) in
    let added = ap (λ k. new_ids k bot.shards) present ∙ new_ids_lem n bot.shards more in
    (
      rw (added, count) (omega (arith, length-count_up (suc n) (bot.shards - suc n))),
      rw (added, ids) refl,
    )
