-- ===== src/Cache/KeyedRuns.antt =====
-- That the basic cache (cache.go) files everything under its own id, over a history of events.
use disgord.Base.{◌≡◌, refl, Option, some, List, [], ◌∷◌, arith, ◌>>=◌}
use disgord.Cache.State.{BasicCache, Json}
use disgord.Cache.Channels.{
  channel_create, channel_update, channel_delete, channel_pins_update, message_create, user_update,
}
use disgord.Cache.Members.{
  guild_member_add, guild_member_remove, guild_member_update, guild_members_chunk,
}
use disgord.Cache.Guilds.{guild_create, guild_update, guild_delete}
use disgord.Cache.Roles.{guild_role_create, guild_role_update, guild_role_delete}
use disgord.Cache.Keys.{IsKeyed}
use disgord.Cache.KeyedMembers.{
  StaysKeyed, HasUsers, KeepsMembers, guild_member_add-StaysKeyed, guild_member_update-StaysKeyed,
  guild_member_remove-StaysKeyed,
}
use disgord.Cache.KeyedChunks.{guild_members_chunk-StaysKeyed}
use disgord.Cache.KeyedChannels.{
  KeepsIds, channel_create-IsKeyed, channel_update-IsKeyed, channel_delete-IsKeyed,
  channel_pins_update-IsKeyed, message_create-IsKeyed, user_update-IsKeyed,
}
use disgord.Cache.KeyedGuilds.{
  SendsParts, guild_create-StaysKeyed, guild_update-StaysKeyed, guild_delete-IsKeyed,
}
use disgord.Cache.KeyedRoles.{
  guild_role_create-StaysKeyed, guild_role_update-StaysKeyed, guild_role_delete-IsKeyed,
}

-- the events by which the cache changes, each with its data
pub data CacheEvent (D : Type 0) : Type 0 where
  channel_created channel_updated channel_deleted pins_updated message_created user_updated :
      D → CacheEvent D
  member_added member_updated member_removed members_chunk : D → CacheEvent D
  guild_created guild_updated guild_deleted : D → CacheEvent D
  role_created role_updated role_deleted : D → CacheEvent D

abbrev state_of : {A : Type 0} → Option (BasicCache × A) → Option BasicCache
state_of o = do (c', r) ← o; some c'

abbrev Stays : Option BasicCache → Type 0
Stays o = (c' : BasicCache) × (o ≡ some c') × IsKeyed c'

Stays-state_of : {A : Type 0} → (o : Option (BasicCache × A)) → StaysKeyed o → Stays (state_of o)
Stays-state_of o h = (h.0, ground (arith, h.2), h.3)

module _ {D : Type 0} (json : Json D) where
  -- `none`: the handler panics
  unfoldable pub apply : CacheEvent D → BasicCache → Option BasicCache
  apply (channel_created raw) c = some (channel_create json raw c).0
  apply (channel_updated raw) c = some (channel_update json raw c).0
  apply (channel_deleted raw) c = some (channel_delete json raw c).0
  apply (pins_updated raw) c = some (channel_pins_update json raw c).0
  apply (message_created raw) c = some (message_create json raw c).0
  apply (user_updated raw) c = some (user_update json raw c).0
  apply (member_added raw) c = state_of (guild_member_add json raw c)
  apply (member_updated raw) c = state_of (guild_member_update json raw c)
  apply (member_removed raw) c = state_of (guild_member_remove json raw c)
  apply (members_chunk raw) c = state_of (guild_members_chunk json raw c)
  apply (guild_created raw) c = state_of (guild_create json raw c)
  apply (guild_updated raw) c = state_of (guild_update json raw c)
  apply (guild_deleted raw) c = some (guild_delete json raw c).0
  apply (role_created raw) c = state_of (guild_role_create json raw c)
  apply (role_updated raw) c = state_of (guild_role_update json raw c)
  apply (role_deleted raw) c = some (guild_role_delete json raw c).0

  unfoldable pub run : List (CacheEvent D) → BasicCache → Option BasicCache
  run [] c = some c
  run (e ∷ es) c = do c' ← apply e c; run es c'

  -- what the events and their reading are relied on for
  pub record IsFair : Type 0 where
    pub users : HasUsers json
    pub members : KeepsMembers json
    pub ids : KeepsIds json
    pub parts : SendsParts json

  apply-IsKeyed : (e : CacheEvent D) (c : BasicCache) → IsFair → IsKeyed c → Stays (apply e c)
  unfolding apply
  apply-IsKeyed (channel_created raw) c f n = (_, refl, channel_create-IsKeyed json raw c n)
  apply-IsKeyed (channel_updated raw) c f n = (_, refl, channel_update-IsKeyed json raw c f.ids n)
  apply-IsKeyed (channel_deleted raw) c f n = (_, refl, channel_delete-IsKeyed json raw c n)
  apply-IsKeyed (pins_updated raw) c f n = (_, refl, channel_pins_update-IsKeyed json raw c n)
  apply-IsKeyed (message_created raw) c f n = (_, refl, message_create-IsKeyed json raw c n)
  apply-IsKeyed (user_updated raw) c f n = (_, refl, user_update-IsKeyed json raw c n)
  apply-IsKeyed (member_added raw) c f n =
      Stays-state_of _ (guild_member_add-StaysKeyed json raw c f.users n)
  apply-IsKeyed (member_updated raw) c f n =
      Stays-state_of _ (guild_member_update-StaysKeyed json raw c f.users f.members n)
  apply-IsKeyed (member_removed raw) c f n =
      Stays-state_of _ (guild_member_remove-StaysKeyed json raw c f.users n)
  apply-IsKeyed (members_chunk raw) c f n =
      Stays-state_of _ (guild_members_chunk-StaysKeyed json raw c f.users n)
  apply-IsKeyed (guild_created raw) c f n =
      Stays-state_of _ (guild_create-StaysKeyed json raw c f.parts n)
  apply-IsKeyed (guild_updated raw) c f n =
      Stays-state_of _ (guild_update-StaysKeyed json raw c f.parts f.ids n)
  apply-IsKeyed (guild_deleted raw) c f n = (_, refl, guild_delete-IsKeyed json raw c n)
  apply-IsKeyed (role_created raw) c f n =
      Stays-state_of _ (guild_role_create-StaysKeyed json raw c f.parts n)
  apply-IsKeyed (role_updated raw) c f n =
      Stays-state_of _ (guild_role_update-StaysKeyed json raw c f.parts n)
  apply-IsKeyed (role_deleted raw) c f n = (_, refl, guild_role_delete-IsKeyed json raw c n)

  -- Whatever channels, messages, pins, the user, members, guilds and roles do, if each event carries the user of each
  -- member and its role, and reading over a value keeps the id it is filed under, nothing panics, and a
  -- cache that files everything under its own id goes on to do so.
  pub run-IsKeyed :
      (es : List (CacheEvent D)) (c : BasicCache)
      → IsFair
      → IsKeyed c
      → (c' : BasicCache) × (run es c ≡ some c') × IsKeyed c'
  unfolding run
  run-IsKeyed [] c f n = (c, refl, n)
  run-IsKeyed (e ∷ es) c f n =
      let now = apply-IsKeyed e c f n in
      let rest = run-IsKeyed es now.0 f now.2 in (rest.0, ground (arith, now.1, rest.1), rest.2)
