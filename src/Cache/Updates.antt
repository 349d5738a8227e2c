-- ===== src/Cache/Updates.antt =====
-- What an update of a guild, and a new channel, change for the lookups of the basic cache (cache.go).
use disgord.Base.{ℕ, true, ◌≡◌, refl, ◌≢◌, none, some, List, [], ◌∷◌, arith, All}
use disgord.Base.Dict.{Dict, lookup, lookup-insert}
use disgord.Structs.Data.{Channel, Guild, zero_channel}
use disgord.Cache.State.{BasicCache, GuildCacheContainer, Json, ok, save_channel}
use disgord.Cache.Members.{set_container}
use disgord.Cache.Channels.{channel_create}
use disgord.Cache.Guilds.{guild_update, update_container, read_guild}
use disgord.Cache.Reads.{
  get_channel, get_member, get_user, get_current_user, get_guild_channels, get_guild_roles,
  get_guild_emojis, retrieve_channels, or_miss,
}

retrieve-save_channel :
    (ids : List ℕ) (channel : Channel) (store : Dict Channel)
    → All (λ id. id ≢ channel.id) ids
    → retrieve_channels ids (save_channel channel store) ≡ retrieve_channels ids store
unfolding retrieve_channels save_channel
retrieve-save_channel [] channel store h = refl
retrieve-save_channel (id ∷ ids) channel store h = ground (
  arith,
  h.0,
  lookup-insert id channel.id channel store,
  retrieve-save_channel ids channel store h.1,
)

save_channel_new :
    (channel : Channel) (store : Dict Channel)
    → lookup channel.id store ≡ none
    → lookup channel.id (save_channel channel store) ≡ some channel
unfolding save_channel
save_channel_new channel store h =
    ground (arith, h, lookup-insert channel.id channel.id channel store)

module _ {D : Type 0} (json : Json D) where
  abbrev guild_after : D → GuildCacheContainer → Guild
  guild_after raw container = record (json.guild raw container.guild).0 {
    members = [];
    channels = [];
  }

  abbrev container_after : D → GuildCacheContainer → GuildCacheContainer
  container_after raw container = record container { guild = guild_after raw container }

  -- An update of a guild that is known, if it is read without an error, gives the guild the roles and
  -- emojis that reading it over the stored guild gives; its members and its channels are found as
  -- before.
  guild_update_lem :
      (raw : D) (c : BasicCache) (evt : Guild) (container : GuildCacheContainer)
      → read_guild json raw ≡ some evt
      → lookup evt.id c.guilds ≡ some container
      → (json.guild raw container.guild).1 ≡ true
      → (c' : BasicCache) × (guild_update json raw c ≡ some (c', ok evt))
        × (get_guild_roles c' evt.id ≡ ok (json.guild raw container.guild).0.roles)
        × (get_guild_emojis c' evt.id ≡ ok (json.guild raw container.guild).0.emojis)
        × ((user_id : ℕ) → get_member c' evt.id user_id ≡ get_member c evt.id user_id)
        × (get_guild_channels c' evt.id ≡ get_guild_channels c evt.id)
  unfolding guild_update update_container set_container get_guild_roles get_guild_emojis get_member
      get_user get_current_user get_guild_channels
  guild_update_lem raw c evt container e known fine =
      let new = lookup-insert evt.id evt.id (container_after raw container) c.guilds in
      (
        set_container evt.id (container_after raw container) c,
        ground (arith, e, known, fine),
        ground (arith, new),
        ground (arith, new),
        (λ user_id. ground (arith, new, known)),
        ground (arith, new, known),
      )

  -- A channel with a new id, that is created in a guild that is known and does not list the id, is
  -- found by GetChannel, but GetGuildChannels gives what it gave before, without the channel.
  channel_create_lem :
      (raw : D) (c : BasicCache) (g : ℕ) (container : GuildCacheContainer) (channel : Channel)
      → json.channel raw zero_channel ≡ (channel, true)
      → lookup g c.guilds ≡ some container
      → All (λ id. id ≢ channel.id) container.channel_ids
      → lookup channel.id c.channels ≡ none
      → ((channel_create json raw c).1 ≡ ok channel)
        × (get_channel (channel_create json raw c).0 channel.id ≡ ok channel)
        × (get_guild_channels (channel_create json raw c).0 g ≡ get_guild_channels c g)
  unfolding channel_create get_channel get_guild_channels or_miss
  channel_create_lem raw c g container channel e known fresh new =
      let saved : lookup channel.id (save_channel channel c.channels) ≡ some channel =
        save_channel_new channel c.channels new in
      let kept = retrieve-save_channel container.channel_ids channel c.channels fresh in
      (ground (arith, e), ground (arith, e, saved), ground (arith, e, known, kept))
