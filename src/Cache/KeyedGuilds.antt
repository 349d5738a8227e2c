-- ===== src/Cache/KeyedGuilds.antt =====
-- That the basic cache (cache.go) files everything under its own id: the events of guilds.
use disgord.Base.{
  ◌≡◌, refl, ◌≢◌, inl, inr, none, some, List, [], ◌∷◌, map, arith, All, Option-cases, Bool-cases,
}
use disgord.Base.Dict.{lookup}
use disgord.Structs.Data.{Member, Channel, Guild}
use disgord.Cache.State.{
  BasicCache, GuildCacheContainer, GuildRoleEvent, Json, ok, err, unmarshal_error,
}
use disgord.Cache.Members.{set_container}
use disgord.Cache.Guilds.{
  deconstruct_guild, save_guild, guild_create, guild_update, guild_delete, update_container,
  read_guild, save_channels, members_map,
}
use disgord.Cache.Keys.{
  IsMemberOf, IsGuildOf, IsKeyed, Each-erase, Each-nil, HasNoNil, save_users-SavesUsers,
  save_channels-Each, members_map-Each,
}
use disgord.Cache.KeyedMembers.{StaysKeyed, set_container-IsKeyed}
use disgord.Cache.KeyedChannels.{KeepsIds}

users-no_nil :
    (ms : List Member) → HasNoNil ms → All (λ u. u ≢ none) (map (λ (m : Member). m.user) ms)
users-no_nil [] h = tt
users-no_nil (m ∷ ms) h = (h.0, users-no_nil ms h.1)

save_guild-IsKeyed :
    (guild : Guild) (c : BasicCache)
    → HasNoNil guild.members
    → IsKeyed c
    → (c' : BasicCache) × (save_guild guild c ≡ some c') × IsKeyed c'
unfolding save_guild deconstruct_guild
save_guild-IsKeyed guild c h n = elim (Bool-cases guild.unavailable) [
  | inl away ↦
      let container : GuildCacheContainer = record {
        guild = guild;
        channel_ids = [];
        members = [];
      } in
      (
        set_container guild.id container c,
        ground (arith, away),
        set_container-IsKeyed guild.id container c
            (record { guild = refl; members = Each-nil IsMemberOf }) n,
      )
  | inr here ↦
      let store =
        save_users-SavesUsers (map (λ (m : Member). m.user) guild.members) c.users
          (users-no_nil guild.members h) n.users in
      let saved : BasicCache = record c {
        channels = save_channels guild.channels c.channels;
        users = store.0;
      } in
      let keyed : IsKeyed saved = record {
        users = store.2;
        channels = save_channels-Each guild.channels c.channels n.channels;
        guilds = n.guilds;
      } in
      let container : GuildCacheContainer = record {
        guild = record guild { channels = []; members = [] };
        channel_ids = map (λ (channel : Channel). channel.id) guild.channels;
        members = members_map guild.members [];
      } in
      (
        set_container guild.id container saved,
        ground (arith, here, store.1),
        set_container-IsKeyed guild.id container saved
            (record {
              guild = refl;
              members = members_map-Each guild.members [] (Each-nil IsMemberOf);
            })
            keyed,
      )
]

module _ {D : Type 0} (json : Json D) where
  -- Discord sends the user with each member of a guild, and the role with each event of a role.
  pub record SendsParts : Type 0 where
    pub of_guild :
        (raw : D) (guild : Guild) → read_guild json raw ≡ some guild → HasNoNil guild.members
    pub of_role :
        (raw : D) (evt : GuildRoleEvent) → json.guild_role_event raw ≡ some evt → evt.role ≢ none

  pub guild_create-StaysKeyed :
      (raw : D) (c : BasicCache) → SendsParts → IsKeyed c → StaysKeyed (guild_create json raw c)
  unfolding guild_create
  guild_create-StaysKeyed raw c s n = elim (Option-cases (read_guild json raw)) [
    | inl unread ↦ (c, err unmarshal_error, ground (arith, unread), n)
    | inr (evt, e) ↦
        let done = save_guild-IsKeyed evt c (s.of_guild raw evt e) n in
        (done.0, ok evt, ground (arith, e, done.1), done.2)
  ]

  update_container-IsGuildOf :
      (raw : D) (evt : Guild) (container : GuildCacheContainer)
      → KeepsIds json
      → read_guild json raw ≡ some evt
      → IsGuildOf evt.id container
      → IsGuildOf evt.id (update_container json raw evt container).0
  unfolding update_container
  update_container-IsGuildOf raw evt container keeps e h =
      let same = keeps.of_guild raw evt container.guild e h.guild in
      elim (Bool-cases (json.guild raw container.guild).1) [
        | inl fine ↦ rw (update_container, fine) (record { guild = same; members = h.members })
        | inr failed ↦ rw (update_container, failed) (record { guild = same; members = h.members })
      ]

  pub guild_update-StaysKeyed :
      (raw : D) (c : BasicCache)
      → SendsParts
      → KeepsIds json
      → IsKeyed c
      → StaysKeyed (guild_update json raw c)
  unfolding guild_update
  guild_update-StaysKeyed raw c s keeps n = elim (Option-cases (read_guild json raw)) [
    | inl unread ↦ (c, err unmarshal_error, ground (arith, unread), n)
    | inr (evt, e) ↦ elim (Option-cases (lookup evt.id c.guilds)) [
      | inl unknown ↦
          let done = save_guild-IsKeyed evt c (s.of_guild raw evt e) n in
          (done.0, ok evt, ground (arith, e, unknown, done.1), done.2)
      | inr (container, ec) ↦
          let container' : GuildCacheContainer = (update_container json raw evt container).0 in
          (
            set_container evt.id container' c,
            (update_container json raw evt container).1,
            ground (arith, e, ec),
            set_container-IsKeyed evt.id container' c
                (update_container-IsGuildOf raw evt container keeps e
                  (n.guilds evt.id container ec))
                n,
          )
    ]
  ]

  pub guild_delete-IsKeyed :
      (raw : D) (c : BasicCache) → IsKeyed c → IsKeyed (guild_delete json raw c).0
  unfolding guild_delete
  guild_delete-IsKeyed raw c n = elim (Option-cases (json.guild_unavailable raw)) [
    | inl unread ↦ rw (guild_delete, unread) n
    | inr (id, e) ↦
        rw (guild_delete, e)
          (record {
            users = n.users;
            channels = n.channels;
            guilds = Each-erase IsGuildOf id c.guilds n.guilds;
          })
  ]
