-- ===== src/Cache/Reads.antt =====
-- The lookups of the basic cache (cache.go). A Go map is visited in any order, so a lookup that
-- visits the members of a guild takes the order of their keys.
use disgord.Base.{ℕ, Option, none, some, List, [], ◌∷◌, map, ◌==◌, if◌then◌else◌}
use disgord.Base.Dict.{Dict, lookup}
use disgord.Structs.Data.{User, Member, Channel, Role, Emoji, Guild}
use disgord.Structs.Guilds.{find_emoji}
use disgord.Cache.State.{BasicCache, Result, ok, err, cache_miss}

-- `retrieveChannels`: ids without a channel are passed over
unfoldable pub retrieve_channels : List ℕ → Dict Channel → List Channel
retrieve_channels [] store = []
retrieve_channels (id ∷ ids) store = elim (lookup id store) [
  | none ↦ retrieve_channels ids store
  | some channel ↦ channel ∷ retrieve_channels ids store
]

-- `constructMemberList`
unfoldable pub construct_member_list : List ℕ → Dict Member → List Member
construct_member_list [] members = []
construct_member_list (id ∷ ids) members = elim (lookup id members) [
  | none ↦ construct_member_list ids members
  | some m ↦ m ∷ construct_member_list ids members
]

-- a member with the user that is stored for it, if there is one
unfoldable pub with_user : Dict User → Member → Member
with_user users m = elim (lookup m.user_id users) [
  | none ↦ m
  | some user ↦ record m { user = some user }
]

unfoldable pub build_guild_from_cache_container : Guild → List ℕ → List Member → BasicCache → Guild
build_guild_from_cache_container guild channel_ids members c = record guild {
  channels = retrieve_channels channel_ids c.channels;
  members = map (with_user c.users) members;
}

unfoldable pub or_miss : {A : Type 0} → Option A → Result A
or_miss none = err cache_miss
or_miss (some a) = ok a

unfoldable pub get_channel : BasicCache → ℕ → Result Channel
get_channel c id = or_miss (lookup id c.channels)

unfoldable pub get_guild_emoji : BasicCache → ℕ → ℕ → Result Emoji
get_guild_emoji c guild_id emoji_id = elim (lookup guild_id c.guilds) [
  | none ↦ err cache_miss
  | some container ↦
      let (emoji, found) = find_emoji container.guild emoji_id in
      if found then or_miss emoji else err cache_miss
]

unfoldable pub get_guild_emojis : BasicCache → ℕ → Result (List Emoji)
get_guild_emojis c id = elim (lookup id c.guilds) [
  | none ↦ err cache_miss
  | some container ↦ ok container.guild.emojis
]

unfoldable pub get_guild : List ℕ → BasicCache → ℕ → Result Guild
get_guild order c id = elim (lookup id c.guilds) [
  | none ↦ err cache_miss
  | some container ↦ ok (
      build_guild_from_cache_container container.guild container.channel_ids
        (construct_member_list order container.members) c)
]

unfoldable pub get_guild_channels : BasicCache → ℕ → Result (List Channel)
get_guild_channels c id = elim (lookup id c.guilds) [
  | none ↦ err cache_miss
  | some container ↦ ok (retrieve_channels container.channel_ids c.channels)
]

unfoldable pub get_current_user : BasicCache → Result User
get_current_user c = or_miss c.current_user

unfoldable pub get_user : BasicCache → ℕ → Result User
get_user c id = if id == c.current_user_id then get_current_user c else or_miss (lookup id c.users)

abbrev pub to_option : {A : Type 0} → Result A → Option A
to_option (ok a) = some a
to_option (err e) = none

unfoldable pub get_member : BasicCache → ℕ → ℕ → Result Member
get_member c guild_id user_id = elim (lookup guild_id c.guilds) [
  | none ↦ err cache_miss
  | some container ↦ elim (lookup user_id container.members) [
    | none ↦ err cache_miss
    | some m ↦ ok (record m { user = to_option (get_user c user_id) })
  ]
]

unfoldable pub get_guild_roles : BasicCache → ℕ → Result (List Role)
get_guild_roles c id = elim (lookup id c.guilds) [
  | none ↦ err cache_miss
  | some container ↦ ok container.guild.roles
]
