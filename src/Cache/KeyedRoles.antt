-- ===== src/Cache/KeyedRoles.antt =====
-- That the basic cache (cache.go) files everything under its own id: the events of roles.
use disgord.Base.{ℕ, ◌≡◌, inl, inr, some, List, arith, if◌then◌else◌, Option-cases}
use disgord.Base.Dict.{lookup}
use disgord.Structs.Data.{Role}
use disgord.Structs.Guilds.{delete_role_by_id}
use disgord.Cache.State.{
  BasicCache, GuildCacheContainer, GuildRoleEvent, Json, Result, ok, err, unmarshal_error,
}
use disgord.Cache.Members.{set_container}
use disgord.Cache.Roles.{
  role_of, put_role, set_roles, update_role, guild_role_create, guild_role_update,
  guild_role_delete,
}
use disgord.Cache.Keys.{IsKeyed}
use disgord.Cache.KeyedMembers.{StaysKeyed, set_container-IsKeyed}
use disgord.Cache.KeyedGuilds.{SendsParts}

module _ {D : Type 0} (json : Json D) where
  with_roles-IsKeyed :
      (k : ℕ) (roles : List Role) (container : GuildCacheContainer) (c : BasicCache)
      → lookup k c.guilds ≡ some container
      → IsKeyed c
      → IsKeyed (set_container k (set_roles roles container) c)
  with_roles-IsKeyed k roles container c e n =
      let h = n.guilds k container e in
      set_container-IsKeyed k (set_roles roles container) c
        (record { guild = h.guild; members = h.members }) n

  pub guild_role_create-StaysKeyed :
      (raw : D) (c : BasicCache)
      → SendsParts json
      → IsKeyed c
      → StaysKeyed (guild_role_create json raw c)
  unfolding guild_role_create role_of
  guild_role_create-StaysKeyed raw c s n = elim (Option-cases (json.guild_role_event raw)) [
    | inl unread ↦ (c, err unmarshal_error, ground (arith, unread), n)
    | inr (evt, e) ↦ elim (Option-cases evt.role) [
      | inl no_role ↦ absurd (s.of_role raw evt e no_role)
      | inr (role, er) ↦
          let role' : Role = record role { guild_id = evt.guild_id } in
          let result : Result GuildRoleEvent = ok (record evt { role = some role' }) in
          elim (Option-cases (lookup evt.guild_id c.guilds)) [
            | inl unknown ↦ (c, result, ground (arith, e, er, unknown), n)
            | inr (container, ec) ↦
                let roles : List Role = put_role role' container.guild.roles in
                (
                  set_container evt.guild_id (set_roles roles container) c,
                  result,
                  ground (arith, e, er, ec),
                  with_roles-IsKeyed evt.guild_id roles container c ec n,
                )
          ]
    ]
  ]

  pub guild_role_update-StaysKeyed :
      (raw : D) (c : BasicCache)
      → SendsParts json
      → IsKeyed c
      → StaysKeyed (guild_role_update json raw c)
  unfolding guild_role_update role_of
  guild_role_update-StaysKeyed raw c s n = elim (Option-cases (json.guild_role_event raw)) [
    | inl unread ↦ (c, err unmarshal_error, ground (arith, unread), n)
    | inr (evt, e) ↦ elim (Option-cases evt.role) [
      | inl no_role ↦ absurd (s.of_role raw evt e no_role)
      | inr (role, er) ↦
          let role' : Role = record role { guild_id = evt.guild_id } in
          let result : Result GuildRoleEvent = ok (record evt { role = some role' }) in
          elim (Option-cases (lookup evt.guild_id c.guilds)) [
            | inl unknown ↦ (c, result, ground (arith, e, er, unknown), n)
            | inr (container, ec) ↦
                let updated = update_role json raw role' container.guild.roles in
                (
                  set_container evt.guild_id (set_roles updated.0 container) c,
                  if updated.1 then result else err unmarshal_error,
                  ground (arith, e, er, ec),
                  with_roles-IsKeyed evt.guild_id updated.0 container c ec n,
                )
          ]
    ]
  ]

  pub guild_role_delete-IsKeyed :
      (raw : D) (c : BasicCache) → IsKeyed c → IsKeyed (guild_role_delete json raw c).0
  unfolding guild_role_delete delete_role_by_id
  guild_role_delete-IsKeyed raw c n = elim (Option-cases (json.guild_role_delete raw)) [
    | inl unread ↦ rw (guild_role_delete, unread) n
    | inr (evt, e) ↦ elim (Option-cases (lookup evt.guild_id c.guilds)) [
      | inl unknown ↦ rw (guild_role_delete, e, unknown) n
      | inr (container, ec) ↦
          let h = n.guilds evt.guild_id container ec in
          rw (guild_role_delete, e, ec)
            (set_container-IsKeyed evt.guild_id
              (record container { guild = delete_role_by_id container.guild evt.role_id }) c
              (record { guild = h.guild; members = h.members }) n)
    ]
  ]
