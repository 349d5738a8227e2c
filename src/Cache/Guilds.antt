-- ===== src/Cache/Guilds.antt =====
-- The events of guilds (cache.go), with the reading of these events (cache_gen.go, events.go).
use disgord.Base.{ℕ, true, false, Option, none, some, List, [], ◌∷◌, map, if◌then◌else◌, ◌>>=◌}
use disgord.Base.Dict.{Dict, lookup, insert, erase}
use disgord.Structs.Data.{Member, Channel, Guild, zero_guild}
use disgord.Structs.Internals.{update_guild}
use disgord.Cache.State.{
  BasicCache, GuildCacheContainer, Json, Result, ok, err, unmarshal_error, save_users, save_channel,
}
use disgord.Cache.Members.{without_user, set_container}

-- the loop over the channels of a guild
unfoldable pub save_channels : List Channel → Dict Channel → Dict Channel
save_channels [] store = store
save_channels (channel ∷ channels) store = save_channels channels (save_channel channel store)

-- the loop that moves the members to a map
unfoldable pub members_map : List Member → Dict Member → Dict Member
members_map [] store = store
members_map (m ∷ ms) store = members_map ms (insert m.user_id (without_user m) store)

-- `deconstructGuild`: what the cache keeps of a guild
unfoldable pub deconstruct_guild : Guild → BasicCache → Option (BasicCache × GuildCacheContainer)
deconstruct_guild guild c = elim guild.unavailable [
  | true ↦ some (c, record { guild = guild; channel_ids = []; members = [] })
  | false ↦ do
    store ← save_users (map (λ (m : Member). m.user) guild.members) c.users
    some (
      record c { channels = save_channels guild.channels c.channels; users = store },
      record {
        guild = record guild { channels = []; members = [] };
        channel_ids = map (λ (channel : Channel). channel.id) guild.channels;
        members = members_map guild.members [];
      },
    )
]

-- the store of a guild that is new, or replaces what was known
unfoldable pub save_guild : Guild → BasicCache → Option BasicCache
save_guild guild c = do
  (c', container) ← deconstruct_guild guild c
  some (set_container guild.id container c')

module _ {D : Type 0} (json : Json D) where
  -- an event that is a guild, read into the zero value
  unfoldable pub read_guild : D → Option Guild
  read_guild raw =
      let (guild, fine) = json.guild raw zero_guild in
      if fine then some (update_guild guild) else none

  unfoldable pub guild_create : D → BasicCache → Option (BasicCache × Result Guild)
  guild_create raw c = elim (read_guild raw) [
    | none ↦ some (c, err unmarshal_error)
    | some evt ↦ do c' ← save_guild evt c; some (c', ok evt)
  ]

  -- A guild that is known is read over. Its members and channels are dropped unless that fails.
  unfoldable pub update_container :
      D → Guild → GuildCacheContainer → GuildCacheContainer × Result Guild
  update_container raw evt container =
      let (guild, fine) = json.guild raw container.guild in
      if fine
      then (record container { guild = record guild { members = []; channels = [] } }, ok evt)
      else (record container { guild = guild }, err unmarshal_error)

  unfoldable pub guild_update : D → BasicCache → Option (BasicCache × Result Guild)
  guild_update raw c = elim (read_guild raw) [
    | none ↦ some (c, err unmarshal_error)
    | some evt ↦ elim (lookup evt.id c.guilds) [
      | none ↦ do c' ← save_guild evt c; some (c', ok evt)
      | some container ↦
          let (container', result) = update_container raw evt container in
          some (set_container evt.id container' c, result)
    ]
  ]

  unfoldable pub guild_delete : D → BasicCache → BasicCache × Result ℕ
  guild_delete raw c = elim (json.guild_unavailable raw) [
    | none ↦ (c, err unmarshal_error)
    | some id ↦ (record c { guilds = erase id c.guilds }, ok id)
  ]
