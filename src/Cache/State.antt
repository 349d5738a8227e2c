-- ===== src/Cache/State.antt =====
-- The state of BasicCache (cache.go) and what its operations share. Operations hold the locks of the
-- parts they use, so each is one step. A deep copy is the same value (Structs/Copies). `none` is a
-- panic. Reading JSON is a parameter. The cache's VoiceStates, which nothing uses, are left out.
use disgord.Base.{
  ℕ, ◌+◌, ◌-◌, ◌%◌, ◌^◌, Bool, Option, none, some, List, [], ◌∷◌, is_some, if◌then◌else◌,
}
use disgord.Base.Dict.{Dict, lookup, insert}
use disgord.Structs.Data.{User, Member, Channel, Guild, Role, zero_user}

pub record GuildCacheContainer : Type 0 where
  pub guild : Guild
  pub channel_ids : List ℕ
  pub members : Dict Member

pub record BasicCache : Type 0 where
  pub current_user_id : ℕ
  pub current_user : Option User
  pub users : Dict User
  pub channels : Dict Channel
  pub guilds : Dict GuildCacheContainer

pub data CacheError : Type 0 where
  unmarshal_error cache_miss : CacheError

pub data Result (A : Type 0) : Type 0 where
  ok : A → Result A
  err : CacheError → Result A

-- The events that the cache reads, but for what it does not look at.
pub record MessageCreate : Type 0 where
  pub id : ℕ
  pub channel_id : ℕ
  pub guild_id : ℕ
  pub author : Option User
  pub type : ℕ

pub record ChannelPinsUpdate : Type 0 where
  pub channel_id : ℕ
  pub guild_id : ℕ
  pub last_pin_timestamp : ℕ

pub record GuildMembersChunk : Type 0 where
  pub guild_id : ℕ
  pub members : List Member

pub record GuildMemberRemove : Type 0 where
  pub guild_id : ℕ
  pub user : Option User

pub record GuildRoleEvent : Type 0 where
  pub guild_id : ℕ
  pub role : Option Role

pub record GuildRoleDelete : Type 0 where
  pub guild_id : ℕ
  pub role_id : ℕ

-- `json.Unmarshal` on the data of type `D`. Into an object that exists, it gives what has been
-- written and whether it got through.
pub record Json (D : Type 0) : Type 0 where
  pub id : D → Option ℕ
  pub user : D → User → User × Bool
  pub ready : D → User → User × Bool
  pub channel : D → Channel → Channel × Bool
  pub member : D → Member → Member × Bool
  pub guild : D → Guild → Guild × Bool
  pub role : D → Role → Role × Bool
  pub guild_unavailable : D → Option ℕ
  pub message_create : D → Option MessageCreate
  pub channel_pins_update : D → Option ChannelPinsUpdate
  pub guild_members_chunk : D → Option GuildMembersChunk
  pub guild_member_remove : D → Option GuildMemberRemove
  pub guild_role_event : D → Option GuildRoleEvent
  pub guild_role_delete : D → Option GuildRoleDelete

-- `NewBasicCache`, whose current user is set to the zero value
unfoldable pub new_basic_cache : ℕ → BasicCache
new_basic_cache id = record {
  current_user_id = id;
  current_user = some zero_user;
  users = [];
  channels = [];
  guilds = [];
}

-- `saveUsers`: a user that is known stays as it is, and nil is dereferenced.
unfoldable pub save_users : List (Option User) → Dict User → Option (Dict User)
save_users [] store = some store
save_users (none ∷ users) store = none
save_users (some user ∷ users) store =
    save_users users (if is_some (lookup user.id store) then store else insert user.id user store)

-- the channels with one more, which is left as it is if it exists
unfoldable pub save_channel : Channel → Dict Channel → Dict Channel
save_channel channel store =
    if is_some (lookup channel.id store) then store else insert channel.id channel store

abbrev pub uint_mod : ℕ
uint_mod = 2 ^ 64

-- `MemberCount++` and `MemberCount--` on a uint
abbrev pub incr : ℕ → ℕ
incr n = (n + 1) % uint_mod

abbrev pub decr : ℕ → ℕ
decr n = (n + uint_mod - 1) % uint_mod
