-- ===== src/Cache/Tests.antt =====
-- The basic cache on concrete events.
use disgord.Base.{ℕ, true, false, ◌≡◌, refl, none, some, List, [], ◌∷◌, map, arith, All}
use disgord.Base.Dict.{lookup}
use disgord.Structs.Data.{
  User, Member, Channel, Role, Guild, zero_user, zero_member, zero_channel, zero_role, zero_guild,
}
use disgord.Structs.Internals.{update_member, update_guild}
use disgord.Structs.Roles.{DistinctRoles, role_at}
use disgord.Cache.State.{
  BasicCache, GuildCacheContainer, GuildMembersChunk, GuildMemberRemove, GuildRoleDelete,
  MessageCreate, ChannelPinsUpdate, Json, ok, new_basic_cache,
}
use disgord.Cache.Members.{guild_members_chunk, read_chunk, sort_members, read_member}
use disgord.Cache.Guilds.{guild_create, read_guild}
use disgord.Cache.Roles.{role_of}
use disgord.Cache.Reads.{get_channel, get_guild, get_guild_roles, get_member, or_miss, to_option}
use disgord.Cache.Replay
use disgord.Cache.Replay.{
  ChannelEvent, channel_created, channel_updated, channel_deleted, pins_updated, message_created,
  get_channel-run,
}
use disgord.Cache.ReadBack.{IsFullGuild, as_known, get_guild-guild_create}
use disgord.Cache.ChunkReads.{user_as_known, get_member-guild_members_chunk}
use disgord.Cache.CountRuns
use disgord.Cache.CountRuns.{added, updated, removed, SendsUsers, Misses, run-Keeps}
use disgord.Cache.RoleSteps
use disgord.Cache.RoleSteps.{created, deleted, SendsRoles}
use disgord.Cache.RoleRuns.{get_guild_roles-run}

-- What Discord sends, read.
data Payload : Type 0 where
  of_channel : Channel → Payload
  of_member : Member → Payload
  of_guild : Guild → Payload
  of_message : MessageCreate → Payload
  of_pins : ChannelPinsUpdate → Payload
  of_chunk : GuildMembersChunk → Payload
  of_remove : GuildMemberRemove → Payload
  of_role : ℕ → Role → Payload
  of_role_delete : GuildRoleDelete → Payload

abbrev json : Json Payload
json = record {
  id = λ p. elim p [ of_channel c ↦ some c.id | _ ↦ none ];
  user = λ p u. (u, false);
  ready = λ p u. (u, true);
  channel = λ p c. elim p [ of_channel c' ↦ (c', true) | _ ↦ (c, false) ];
  member = λ p m. elim p [ of_member m' ↦ (m', true) | _ ↦ (m, false) ];
  guild = λ p g. elim p [ of_guild g' ↦ (g', true) | _ ↦ (g, false) ];
  role =
      λ p r. elim p [ of_role g r' ↦ (record r' { guild_id = r.guild_id }, true) | _ ↦ (r, false) ];
  guild_unavailable = λ p. none;
  message_create = λ p. elim p [ of_message m ↦ some m | _ ↦ none ];
  channel_pins_update = λ p. elim p [ of_pins u ↦ some u | _ ↦ none ];
  guild_members_chunk = λ p. elim p [ of_chunk c ↦ some c | _ ↦ none ];
  guild_member_remove =
      λ p. elim p [ of_remove r ↦ some (record r { user = some zero_user }) | _ ↦ none ];
  guild_role_event =
      λ p. elim p [ of_role g r ↦ some (record { guild_id = g; role = some r }) | _ ↦ none ];
  guild_role_delete = λ p. elim p [ of_role_delete d ↦ some d | _ ↦ none ];
}

abbrev channel_3 : Channel
channel_3 = record zero_channel { id = 3; name = "general" }

abbrev renamed : Channel
renamed = record channel_3 { name = "offtopic" }

abbrev channel_events : List (ChannelEvent Payload)
channel_events =
    channel_created (of_channel channel_3)
    ∷ channel_updated (of_channel renamed)
    ∷ channel_created (of_channel channel_3)
    ∷ pins_updated (of_pins (record { channel_id = 3; guild_id = 0; last_pin_timestamp = 9 }))
    ∷ []

get_channel-run_example :
    get_channel (Replay.run json channel_events (new_basic_cache 1)) 3
    ≡ or_miss (
        Replay.replay json
          (new_basic_cache 1).current_user
          channel_events
          (λ j. to_option (get_channel (new_basic_cache 1) j))
          3)
get_channel-run_example = get_channel-run json channel_events (new_basic_cache 1) 3

abbrev user : ℕ → User
user id = record zero_user { id = id }

abbrev member : ℕ → Member
member id = record zero_member { user = some (user id); user_id = id; guild_id = 7 }

abbrev guild_7 : Guild
guild_7 = record zero_guild {
  id = 7;
  member_count = 2;
  members = member 20 ∷ member 10 ∷ [];
  channels = record channel_3 { guild_id = 7 } ∷ [];
}

guild_7-IsFullGuild : IsFullGuild guild_7
guild_7-IsFullGuild = record {
  available = refl;
  channels = (tt, tt);
  members = (((λ e. omega (arith, e)), tt), (tt, tt));
  users = ((user 20, refl, refl), ((user 10, refl, refl), tt));
}

get_guild-guild_create_example :
    (c' : BasicCache) × (guild_create json (of_guild guild_7) (new_basic_cache 1)
      ≡ some (c', ok guild_7))
    × (get_guild (map (λ (m : Member). m.user_id) guild_7.members) c' 7
        ≡ ok (as_known (new_basic_cache 1) guild_7))
unfolding read_guild update_guild update_member
get_guild-guild_create_example =
    get_guild-guild_create json (of_guild guild_7) (new_basic_cache 1) guild_7 refl
      guild_7-IsFullGuild

abbrev container_7 : GuildCacheContainer
container_7 = record {
  guild = record zero_guild {
    id = 7;
    member_count = 5;
    roles = record zero_role { id = 1 } ∷ record zero_role { id = 2 } ∷ [];
  };
  channel_ids = [];
  members = [];
}

abbrev cache_7 : BasicCache
cache_7 = record {
  current_user_id = 1;
  current_user = some (user 1);
  users = [];
  channels = [];
  guilds = (7, container_7) ∷ [];
}

abbrev chunk_7 : GuildMembersChunk
chunk_7 = record { guild_id = 7; members = member 20 ∷ member 10 ∷ [] }

get_member-guild_members_chunk_example :
    (c' : BasicCache) × (guild_members_chunk json (of_chunk chunk_7) cache_7
      ≡ some (c', ok (record chunk_7 { members = sort_members chunk_7.members })))
    × All
        (λ (m : Member).
          get_member c' 7 m.user_id ≡ ok (record m { user = user_as_known cache_7 m }))
        chunk_7.members
unfolding read_chunk update_member lookup
get_member-guild_members_chunk_example =
    get_member-guild_members_chunk json (of_chunk chunk_7) cache_7 chunk_7 container_7 refl refl
      guild_7-IsFullGuild.users guild_7-IsFullGuild.members

-- The same, but that a member comes with a user.
abbrev json_users : Json Payload
json_users = record json {
  member =
      λ p m. elim p [ of_member m' ↦ (record m' { user = some zero_user }, true) | _ ↦ (m, false) ];
}

json-SendsUsers : SendsUsers json_users
unfolding read_member update_member
json-SendsUsers = record {
  of_member = λ raw m e no. ground arith;
  of_remove = λ raw gmr e no. ground arith;
}

cache_7-Misses : Misses json_users 7 5 cache_7
unfolding lookup
cache_7-Misses = record {
  container = container_7;
  known = refl;
  counted = record { keys = tt; missing_members = refl };
}

run-Keeps_example :
    (c' : BasicCache) × (CountRuns.run json_users
        (added (of_member (member 20)) ∷ updated (of_member (member 20)) ∷ [])
        cache_7
      ≡ some c')
    × Misses json_users 7 5 c'
run-Keeps_example =
    run-Keeps json_users 7 5 (added (of_member (member 20)) ∷ updated (of_member (member 20)) ∷ [])
      cache_7 json-SendsUsers cache_7-Misses

json-SendsRoles : SendsRoles json
unfolding role_of
json-SendsRoles = record {
  has_role = λ raw evt e no. ground arith;
  keeps = λ raw evt role r e er p. ground arith;
}

abbrev role_events : List (RoleSteps.RoleEvent json)
role_events =
    created (of_role 7 (record zero_role { id = 4 }))
    ∷ deleted (of_role_delete (record { guild_id = 7; role_id = 1 }))
    ∷ []

get_guild_roles-run_example :
    (c' : BasicCache) × (rs' : List Role) × (RoleSteps.run json role_events cache_7 ≡ some c')
    × (get_guild_roles c' 7 ≡ ok rs')
    × DistinctRoles rs'
    × ((j : ℕ)
        → role_at j rs'
          ≡ RoleSteps.replay json 7 role_events (λ i. role_at i container_7.guild.roles) j)
unfolding get_guild_roles lookup
get_guild_roles-run_example =
    get_guild_roles-run json 7 role_events container_7.guild.roles cache_7 json-SendsRoles refl
      (((λ e. omega (arith, e)), tt), (tt, tt))
