-- ===== src/Gateway/Shards/Cover.antt =====
-- What a configuration of the shards guarantees.
use disgord.Base.{
  ℕ, zero, suc, ◌+◌, ◌/◌, ◌%◌, ◌^◌, ◌≤◌, ◌<◌, ◌≡◌, refl, none, some, true, arith, length, ◌==◌,
  ◌&&◌, not, if◌then◌else◌, is_some, Bool-cases, inl, inr,
}
use disgord.Base.Int.{pos, eq_ℤ}
use disgord.Gateway.Shards.{
  ShardConfig, GatewayBot, count_up, configure_shard_config, get_shard_for_guild_id,
}
use disgord.Gateway.Shards.Grouping.{elem}

elem-count_up : (x i n : ℕ) → i ≤ x → x < i + n → elem x (count_up i n) ≡ true
unfolding count_up
elem-count_up x i zero lo hi = absurd (omega arith)
elem-count_up x i (suc n) lo hi = ground (arith, elem-count_up x (suc i) n)

-- A configuration `c` for the user's `conf`: the pause between identifies is the user's, also a negative
-- one, and 5.1 seconds if that is 0.
pub record IsConfigured (conf c : ShardConfig) : Type 0 where
  pub some_shards : 0 < c.shard_count
  pub some_ids : 0 < length c.shard_ids
  pub paced :
      c.shard_rate_limit
      ≡ (if eq_ℤ conf.shard_rate_limit (pos 0) then pos 5100 else conf.shard_rate_limit)
  pub limited : 0 < c.identifies_per24_h

length-count_up : (i n : ℕ) → length (count_up i n) ≡ n
unfolding count_up
length-count_up i zero = refl
length-count_up i (suc n) = omega (arith, length-count_up (suc i) n)

-- When Discord answers with at least one shard, a configuration fails exactly if it has a shard
-- count without shard ids; then it stays as it was. Else it ends with a count, at least one id and a
-- limit on identifies, all above 0, and with the pause between identifies that the user has set, also
-- a negative one, or 5.1 seconds for 0.
pub configure-IsConfigured :
    (bot : GatewayBot) (conf : ShardConfig)
    → 0 < bot.shards
    → let (c, error) = configure_shard_config (some bot) conf in
      if length conf.shard_ids == 0 && not (conf.shard_count == 0)
      then (is_some error ≡ true) × (c ≡ conf)
      else (error ≡ none) × IsConfigured conf c
unfolding configure_shard_config
configure-IsConfigured bot conf h =
    elim (Bool-cases (length conf.shard_ids == 0 && not (conf.shard_count == 0))) [
      | inl bad ↦ rw bad (refl, refl)
      | inr good ↦ rw good (
        refl,
        record {
          some_shards = ground arith;
          some_ids = ground (arith, length-count_up 0 bot.shards);
          paced = refl;
          limited = ground arith;
        },
      )
    ]

-- With no shard ids of the user's, every guild belongs to a shard of this manager.
configure_covers :
    (bot : GatewayBot) (conf : ShardConfig) (g : ℕ)
    → 0 < bot.shards
    → length conf.shard_ids ≡ 0
    → conf.shard_count ≡ 0
    → let (c, error) = configure_shard_config (some bot) conf in
      (id : ℕ) × (error ≡ none)
      × (get_shard_for_guild_id g c.shard_count ≡ some id)
      × (elem id c.shard_ids ≡ true)
unfolding configure_shard_config get_shard_for_guild_id
configure_covers bot conf g h no_ids no_count = (
  (g / 2 ^ 22) % bot.shards,
  ground arith,
  ground arith,
  ground (arith, elem-count_up ((g / 2 ^ 22) % bot.shards) 0 bot.shards),
)
