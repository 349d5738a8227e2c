-- ===== src/Cache/ReadBack.antt =====
-- What GetGuild (cache.go) gives of a guild that was created.
use disgord.Base.{false, ◌≡◌, refl, some, List, [], ◌∷◌, map, arith}
use disgord.Base.Dict.{Dict, lookup, insert, lookup-insert}
use disgord.Structs.Data.{User, Member, Channel, Guild}
use disgord.Cache.State.{BasicCache, GuildCacheContainer, Json, ok}
use disgord.Cache.Members.{set_container}
use disgord.Cache.Guilds.{
  save_channels, members_map, deconstruct_guild, save_guild, guild_create, read_guild,
}
use disgord.Cache.Reads.{build_guild_from_cache_container, get_guild}
use disgord.Cache.RoundTrip.{
  Distinct, HaveUsers, KnownAs, SameUsers, refreshed, or_known, store_users, retrieve-save_channels,
  save_users-store_users, construct-members_map, with_user-store_users,
}

KnownAs-refl : (store : Dict Channel) (cs : List Channel) → KnownAs (λ id. lookup id store) store cs
KnownAs-refl store [] = tt
KnownAs-refl store (c ∷ cs) = (refl, KnownAs-refl store cs)

pub SameUsers-refl : (store : Dict User) (ms : List Member) → SameUsers store store ms
SameUsers-refl store [] = tt
SameUsers-refl store (m ∷ ms) = (refl, SameUsers-refl store ms)

-- A guild that Discord sends in full: each channel and each member once, and each member with its
-- user.
pub record IsFullGuild (g : Guild) : Type 0 where
  pub available : g.unavailable ≡ false
  pub channels : Distinct (λ (c : Channel). c.id) g.channels
  pub members : Distinct (λ (m : Member). m.user_id) g.members
  pub users : HaveUsers g.members

-- the guild as the cache gives it, with the channels and users that it knew before
abbrev pub as_known : BasicCache → Guild → Guild
as_known c g = record g {
  channels =
      map (λ (channel : Channel). or_known (lookup channel.id c.channels) channel) g.channels;
  members = map (refreshed c.users) g.members;
}

-- what the cache keeps of the guild
abbrev container_of : Guild → GuildCacheContainer
container_of g = record {
  guild = record g { channels = []; members = [] };
  channel_ids = map (λ (channel : Channel). channel.id) g.channels;
  members = members_map g.members [];
}

abbrev after_create : BasicCache → Guild → BasicCache
after_create c g = record c {
  channels = save_channels g.channels c.channels;
  users = store_users g.members c.users;
  guilds = insert g.id (container_of g) c.guilds;
}

save_guild-full :
    (c : BasicCache) (g : Guild) → IsFullGuild g → save_guild g c ≡ some (after_create c g)
unfolding save_guild deconstruct_guild set_container
save_guild-full c g h =
    ground (arith, h.available, save_users-store_users g.members c.users h.users)

get_guild-after_create :
    (c : BasicCache) (g : Guild)
    → IsFullGuild g
    → get_guild (map (λ (m : Member). m.user_id) g.members) (after_create c g) g.id
      ≡ ok (as_known c g)
unfolding get_guild build_guild_from_cache_container
get_guild-after_create c g h = ground (
  arith,
  lookup-insert g.id g.id (container_of g) c.guilds,
  construct-members_map g.members [] h.members,
  with_user-store_users c.users g.members c.users h.users h.members
      (SameUsers-refl c.users g.members),
  retrieve-save_channels (λ id. lookup id c.channels) g.channels c.channels h.channels
      (KnownAs-refl c.channels g.channels),
)

module _ {D : Type 0} (json : Json D) where
  -- A guild that is sent in full is read back as it was sent, but that a channel or a user that the
  -- cache knew already is the one it knew.
  pub get_guild-guild_create :
      (raw : D) (c : BasicCache) (g : Guild)
      → read_guild json raw ≡ some g
      → IsFullGuild g
      → (c' : BasicCache) × (guild_create json raw c ≡ some (c', ok g))
        × (get_guild (map (λ (m : Member). m.user_id) g.members) c' g.id ≡ ok (as_known c g))
  unfolding guild_create
  get_guild-guild_create raw c g e h =
      (after_create c g, ground (arith, e, save_guild-full c g h), get_guild-after_create c g h)
