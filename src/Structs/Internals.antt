-- ===== src/Structs/Internals.antt =====
-- `updateInternals` of members and guilds (guild.go): the fields that Discord does not send.
use disgord.Base.{ℕ, none, some, map}
use disgord.Structs.Data.{Member, Guild, Role, Channel}

unfoldable pub update_member : Member → Member
update_member m = elim m.user [ none ↦ m | some user ↦ record m { user_id = user.id } ]

-- `v.GuildID = guild.ID`
abbrev pub in_guild : ℕ → Member → Member
in_guild id m = record m { guild_id = id }

unfoldable pub update_guild : Guild → Guild
update_guild g = record g {
  roles = map (λ (r : Role). record r { guild_id = g.id }) g.roles;
  channels = map (λ (c : Channel). record c { guild_id = g.id }) g.channels;
  members = map (λ m. update_member (in_guild g.id m)) g.members;
}
