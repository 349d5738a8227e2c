-- ===== src/Cache/KeyedTests.antt =====
-- A history of the basic cache (cache.go), that files everything under its own id.
use disgord.Base.{ℕ, true, false, ◌≡◌, refl, ◌≢◌, none, some, List, [], ◌∷◌, map, arith, subst}
use disgord.Structs.Data.{Member, Channel, Guild, zero_user, zero_member, zero_channel, zero_guild}
use disgord.Structs.Internals.{update_guild, update_member, in_guild}
use disgord.Cache.State.{BasicCache, GuildMembersChunk, Json, new_basic_cache}
use disgord.Cache.Members.{read_member, read_chunk}
use disgord.Cache.Guilds.{read_guild}
use disgord.Cache.Keys.{IsKeyed, HasNoNil, IsUserOf, IsChannelOf, IsGuildOf, Each-nil}
use disgord.Cache.KeyedMembers.{KeepsMembers}
use disgord.Cache.KeyedRuns.{
  CacheEvent, channel_created, guild_created, member_added, guild_updated, run, IsFair, run-IsKeyed,
}

data Payload : Type 0 where
  of_channel : Channel → Payload
  of_member : Member → Payload
  of_guild : Guild → Payload
  of_chunk : GuildMembersChunk → Payload

-- a member with a user
abbrev sent : Member → Member
sent m = record m { user = some (record zero_user { id = m.user_id }) }

abbrev json : Json Payload
json = record {
  id = λ p. elim p [ of_channel c ↦ some c.id | _ ↦ none ];
  user = λ p u. (u, false);
  ready = λ p u. (u, true);
  channel = λ p c. elim p [ of_channel c' ↦ (c', true) | _ ↦ (c, false) ];
  member = λ p m. elim p [
    | of_member m' ↦ (record (sent m') { user_id = m.user_id }, true)
    | _ ↦ (m, false)
  ];
  guild = λ p g. elim p [
    | of_guild g' ↦ (record g' { members = map sent g'.members }, true)
    | _ ↦ (g, false)
  ];
  role = λ p r. (r, false);
  guild_unavailable = λ p. none;
  message_create = λ p. none;
  channel_pins_update = λ p. none;
  guild_members_chunk =
      λ p. elim p [ of_chunk c ↦ some (record c { members = map sent c.members }) | _ ↦ none ];
  guild_member_remove = λ p. none;
  guild_role_event = λ p. none;
  guild_role_delete = λ p. none;
}

no_nil-sent :
    (id : ℕ) (ms : List Member) → HasNoNil (map (λ m. update_member (in_guild id m)) (map sent ms))
unfolding update_member
no_nil-sent id [] = tt
no_nil-sent id (m ∷ ms) = ((λ i. ground (arith, i)), no_nil-sent id ms)

member_has_user : (p : Payload) (m : Member) → read_member json p ≡ some m → m.user ≢ none
unfolding read_member update_member
member_has_user (of_channel c) m e gone = ground (arith, e)
member_has_user (of_member m') m e gone = ground (arith, e, gone)
member_has_user (of_guild g) m e gone = ground (arith, e)
member_has_user (of_chunk c) m e gone = ground (arith, e)

chunk_has_users :
    (p : Payload) (evt : GuildMembersChunk) → read_chunk json p ≡ some evt → HasNoNil evt.members
unfolding read_chunk
chunk_has_users (of_channel c) evt e = absurd (ground (arith, e))
chunk_has_users (of_member m) evt e = absurd (ground (arith, e))
chunk_has_users (of_guild g) evt e = absurd (ground (arith, e))
chunk_has_users (of_chunk c) evt e =
    let same : map (λ m. update_member (in_guild c.guild_id m)) (map sent c.members) ≡ evt.members =
      ground (arith, e) in
    subst HasNoNil same (no_nil-sent c.guild_id c.members)

guild_has_users :
    (p : Payload) (guild : Guild) → read_guild json p ≡ some guild → HasNoNil guild.members
unfolding read_guild update_guild
guild_has_users (of_channel c) guild e = absurd (ground (arith, e))
guild_has_users (of_member m) guild e = absurd (ground (arith, e))
guild_has_users (of_chunk c) guild e = absurd (ground (arith, e))
guild_has_users (of_guild g) guild e =
    let same : map (λ m. update_member (in_guild g.id m)) (map sent g.members) ≡ guild.members =
      ground (arith, e) in
    subst HasNoNil same (no_nil-sent g.id g.members)

json-KeepsMembers : KeepsMembers json
json-KeepsMembers (of_channel c) m = refl
json-KeepsMembers (of_member m') m = refl
json-KeepsMembers (of_guild g) m = refl
json-KeepsMembers (of_chunk c) m = refl

keeps_channel :
    (p : Payload) (id : ℕ) (channel : Channel)
    → json.id p ≡ some id
    → channel.id ≡ id
    → (json.channel p channel).0.id ≡ id
keeps_channel (of_channel c) id channel e h = ground (arith, e)
keeps_channel (of_member m') id channel e h = h
keeps_channel (of_guild g) id channel e h = h
keeps_channel (of_chunk c) id channel e h = h

new_channel :
    (p : Payload) (id : ℕ)
    → json.id p ≡ some id
    → (json.channel p zero_channel).1 ≡ true
    → (json.channel p zero_channel).0.id ≡ id
new_channel (of_channel c) id e h = ground (arith, e)
new_channel (of_member m') id e h = absurd (ground (arith, e))
new_channel (of_guild g) id e h = absurd (ground (arith, e))
new_channel (of_chunk c) id e h = absurd (ground (arith, e))

keeps_guild :
    (p : Payload) (evt guild : Guild)
    → read_guild json p ≡ some evt
    → guild.id ≡ evt.id
    → (json.guild p guild).0.id ≡ evt.id
unfolding read_guild update_guild
keeps_guild (of_channel c) evt guild e h = h
keeps_guild (of_member m') evt guild e h = h
keeps_guild (of_guild g) evt guild e h = ground (arith, e)
keeps_guild (of_chunk c) evt guild e h = h

json-IsFair : IsFair json
json-IsFair = record {
  users = record {
    of_member = member_has_user;
    of_remove = λ raw gmr e gone. ground arith;
    of_chunk = chunk_has_users;
  };
  members = json-KeepsMembers;
  ids = record { of_channel = keeps_channel; of_new_channel = new_channel; of_guild = keeps_guild };
  parts = record { of_guild = guild_has_users; of_role = λ raw evt e gone. ground arith };
}

new_basic_cache-IsKeyed : (id : ℕ) → IsKeyed (new_basic_cache id)
unfolding new_basic_cache
new_basic_cache-IsKeyed id = record {
  users = Each-nil IsUserOf;
  channels = Each-nil IsChannelOf;
  guilds = Each-nil IsGuildOf;
}

abbrev member : ℕ → Member
member id = record zero_member { user_id = id; guild_id = 7 }

abbrev guild_7 : Guild
guild_7 = record zero_guild {
  id = 7;
  members = member 20 ∷ member 10 ∷ [];
  channels = record zero_channel { id = 3 } ∷ [];
}

abbrev events : List (CacheEvent Payload)
events =
    guild_created (of_guild guild_7)
    ∷ member_added (of_member (member 30))
    ∷ channel_created (of_channel (record zero_channel { id = 4 }))
    ∷ guild_updated (of_guild guild_7)
    ∷ []

run-IsKeyed_example :
    (c' : BasicCache) × (run json events (new_basic_cache 1) ≡ some c') × IsKeyed c'
run-IsKeyed_example =
    run-IsKeyed json events (new_basic_cache 1) json-IsFair (new_basic_cache-IsKeyed 1)
