-- ===== src/Gateway/Shards.antt =====
-- internal/gateway/sharding.go: the configuration of the shards, and sending a command to them. A Go
-- map is an association list here. A division by zero is `none`.
pub mod Grouping
pub mod Emission
pub mod Cover
pub mod Scaling
mod Tests
use disgord.Base.{
  ℕ, zero, suc, ◌/◌, ◌%◌, ◌^◌, List, [], ◌∷◌, ◌++◌, Option, none, some, Bool, String, str_eq, ◌==◌,
  ◌||◌, ◌&&◌, not, length, is_some, if◌then◌else◌, ◌>>=◌,
}
use disgord.Base.Int.{ℤ, pos, eq_ℤ}
use disgord.Gateway.Command.{
  Payload, RequestGuildMembersPayload, UpdateVoiceStatePayload, members, voice_state, presence,
  foreign,
}
use disgord.Gateway.Client.Emit.{EmitError}

pub record ShardConfig : Type 0 where
  pub shard_ids : List ℕ
  pub shard_count : ℕ
  pub shard_rate_limit : ℤ  -- milliseconds
  pub disable_auto_scaling : Bool
  pub identifies_per24_h : ℕ
  pub url : String

pub record GatewayBot : Type 0 where
  pub url : String
  pub shards : ℕ

pub data ConfigError : Type 0 where
  count_without_ids no_gateway_bot : ConfigError

-- `n` numbers from `i`: a loop that appends its counter.
unfoldable pub count_up : ℕ → ℕ → List ℕ
count_up i zero = []
count_up i (suc n) = i ∷ count_up (suc i) n

-- `bot` is the answer of `GetGatewayBot`, or none for an error.
unfoldable pub configure_shard_config :
    Option GatewayBot → ShardConfig → ShardConfig × Option ConfigError
configure_shard_config bot conf =
    let no_ids = length conf.shard_ids == 0 in
    let no_count = conf.shard_count == 0 in
    if no_ids && not no_count then (conf, some count_without_ids) else elim bot [
      | none ↦ (conf, some no_gateway_bot)
      | some b ↦ (
        record {
          shard_ids = if no_ids then count_up 0 b.shards else conf.shard_ids;
          shard_count =
              if no_ids
              then b.shards
              else if no_count
              then length conf.shard_ids
              else conf.shard_count;
          shard_rate_limit =
              if eq_ℤ conf.shard_rate_limit (pos 0) then pos 5100 else conf.shard_rate_limit;
          disable_auto_scaling = not no_ids || not no_count || conf.disable_auto_scaling;
          identifies_per24_h =
              if conf.identifies_per24_h == 0 then 1000 else conf.identifies_per24_h;
          url = if str_eq conf.url "" then b.url else conf.url;
        },
        none,
      )
    ]

unfoldable pub get_shard_for_guild_id : ℕ → ℕ → Option ℕ
get_shard_for_guild_id guild_id shard_count =
    if shard_count == 0 then none else some ((guild_id / 2 ^ 22) % shard_count)

unfoldable pub find {ℓ} : {A : Type ℓ} → ℕ → List (ℕ × A) → Option A
find id [] = none
find id ((k, s) ∷ ss) = if k == id then some s else find id ss

unfoldable pub put {ℓ} : {A : Type ℓ} → ℕ → A → List (ℕ × A) → List (ℕ × A)
put id s [] = []
put id s ((k, t) ∷ ts) = if k == id then (k, s) ∷ ts else (k, t) ∷ put id s ts

-- `requests[shardID] = append(requests[shardID], guildID)`.
unfoldable pub append_to : ℕ → ℕ → List (ℕ × List ℕ) → List (ℕ × List ℕ)
append_to id g [] = (id, g ∷ []) ∷ []
append_to id g ((k, gs) ∷ rest) =
    if k == id then (k, gs ++ g ∷ []) ∷ rest else (k, gs) ∷ append_to id g rest

unfoldable pub group : ℕ → List ℕ → List (ℕ × List ℕ) → Option (List (ℕ × List ℕ))
group count [] requests = some requests
group count (g ∷ gs) requests = do
  id ← get_shard_for_guild_id g count
  group count gs (append_to id g requests)

pub data ShardError : Type 0 where
  no_shards not_handled unsupported_payload : ShardError
  not_emitted : EmitError → ShardError

pub record ShardMngr (S : Type 0) : Type 0 where
  pub conf : ShardConfig
  pub shards : List (ℕ × S)

abbrev pub emitted : Option EmitError → Option ShardError
emitted none = none
emitted (some e) = some (not_emitted e)

-- A shard takes a command by `emit`.
module _ {S : Type 0} (emit : String → Payload → S → S × Option EmitError) where
  -- One round of the loop over the requests: the shards, the guilds that are not handled, the error.
  unfoldable pub send_group :
      String
      → RequestGuildMembersPayload
      → ℕ × List ℕ
      → List (ℕ × S) × List ℕ × Option ShardError
      → List (ℕ × S) × List ℕ × Option ShardError
  send_group cmd r (id, gs) (shards, left, error) = elim (find id shards) [
    | none ↦ (shards, left ++ gs, error)
    | some s ↦
        let (s', e) = emit cmd (members (record r { guild_ids = gs })) s in
        (put id s' shards, (if is_some e then left ++ gs else left), emitted e)
  ]

  unfoldable pub send_groups :
      String
      → RequestGuildMembersPayload
      → List (ℕ × List ℕ)
      → List (ℕ × S) × List ℕ × Option ShardError
      → List (ℕ × S) × List ℕ × Option ShardError
  send_groups cmd r [] st = st
  send_groups cmd r (g ∷ gs) st = send_groups cmd r gs (send_group cmd r g st)

  -- Every shard gets the status; the error of the last one is returned.
  unfoldable pub send_all :
      String → Payload → List (ℕ × S) → Option ShardError → List (ℕ × S) × Option ShardError
  send_all cmd p [] error = ([], error)
  send_all cmd p ((k, s) ∷ ss) error =
      let (s', e) = emit cmd p s in
      let (rest, last) = send_all cmd p ss (emitted e) in ((k, s') ∷ rest, last)

-- `order` is the order in which a map is iterated, any.
module _ {S : Type 0} (emit : String → Payload → S → S × Option EmitError)
    (order : List (ℕ × List ℕ) → List (ℕ × List ℕ)) where
  -- The only shard of a manager gets the request whole, and all its guilds are returned.
  emit_members :
      String
      → RequestGuildMembersPayload
      → ShardMngr S
      → List (ℕ × S)
      → Option (ShardMngr S × List ℕ × Option ShardError)
  emit_members cmd r m ((k, s) ∷ []) =
      let (s', e) = emit cmd (members r) s in
      some (record m { shards = (k, s') ∷ [] }, r.guild_ids, emitted e)
  emit_members cmd r m shards = do
    requests ← group m.conf.shard_count r.guild_ids []
    let (shards', left, error) = send_groups emit cmd r (order requests) (shards, [], none)
    some (record m { shards = shards' }, left, error)

  emit_voice_state :
      String
      → UpdateVoiceStatePayload
      → ShardMngr S
      → Option (ShardMngr S × List ℕ × Option ShardError)
  emit_voice_state cmd v m = do
    id ← get_shard_for_guild_id v.guild_id m.conf.shard_count
    elim (find id m.shards) [
      | none ↦ some (m, v.guild_id ∷ [], some not_handled)
      | some s ↦
          let (s', e) = emit cmd (voice_state v) s in
          some (record m { shards = put id s' m.shards }, [], emitted e)
    ]

  emit_payload : String → Payload → ShardMngr S → Option (ShardMngr S × List ℕ × Option ShardError)
  unfolding emit_members emit_voice_state
  emit_payload cmd (members r) m = emit_members cmd r m m.shards
  emit_payload cmd (voice_state v) m = emit_voice_state cmd v m
  emit_payload cmd (presence p) m =
      let (shards, error) = send_all emit cmd (presence p) m.shards none in
      some (record m { shards = shards }, [], error)
  emit_payload cmd (foreign n) m = some (m, [], some unsupported_payload)

  unfoldable pub emit_sharded :
      String → Payload → ShardMngr S → Option (ShardMngr S × List ℕ × Option ShardError)
  unfolding emit_payload
  emit_sharded cmd p m =
      if length m.shards == 0 then some (m, [], some no_shards) else emit_payload cmd p m
