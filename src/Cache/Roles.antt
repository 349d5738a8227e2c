-- ===== src/Cache/Roles.antt =====
-- The events of roles (cache.go), with the reading of these events (cache_gen.go, events.go).
use disgord.Base.{Bool, true, Option, none, some, List, [], ◌∷◌, ◌==◌, if◌then◌else◌, ◌>>=◌}
use disgord.Base.Dict.{lookup}
use disgord.Structs.Data.{Role}
use disgord.Structs.Guilds.{delete_role_by_id}
use disgord.Cache.State.{
  BasicCache, GuildCacheContainer, Json, Result, ok, err, unmarshal_error, GuildRoleEvent,
  GuildRoleDelete,
}
use disgord.Cache.Members.{set_container}

-- the role of an event, with the guild; `none`: the event has no role
unfoldable pub role_of : GuildRoleEvent → Option Role
role_of evt = do role ← evt.role; some (record role { guild_id = evt.guild_id })

-- the loop of GuildRoleCreate: the first role with the id is replaced, or the role is added
unfoldable pub put_role : Role → List Role → List Role
put_role role [] = role ∷ []
put_role role (r ∷ roles) = if role.id == r.id then role ∷ roles else r ∷ put_role role roles

abbrev pub set_roles : List Role → GuildCacheContainer → GuildCacheContainer
set_roles roles container = record container { guild = record container.guild { roles = roles } }

module _ {D : Type 0} (json : Json D) where
  unfoldable pub guild_role_create : D → BasicCache → Option (BasicCache × Result GuildRoleEvent)
  guild_role_create raw c = elim (json.guild_role_event raw) [
    | none ↦ some (c, err unmarshal_error)
    | some evt ↦ do
      role ← role_of evt
      some (
        elim (lookup evt.guild_id c.guilds) [
          | none ↦ c
          | some container ↦
              set_container evt.guild_id (set_roles (put_role role container.guild.roles) container)
                c
        ],
        ok (record evt { role = some role }),
      )
  ]

  -- the loop of GuildRoleUpdate: the first role with the id is read over, or the role is added
  unfoldable pub update_role : D → Role → List Role → List Role × Bool
  update_role raw role [] = (role ∷ [], true)
  update_role raw role (r ∷ roles) =
      let (rest, rest_fine) = update_role raw role roles in
      let (r', fine) = json.role raw r in
      if role.id == r.id then (r' ∷ roles, fine) else (r ∷ rest, rest_fine)

  unfoldable pub guild_role_update : D → BasicCache → Option (BasicCache × Result GuildRoleEvent)
  guild_role_update raw c = elim (json.guild_role_event raw) [
    | none ↦ some (c, err unmarshal_error)
    | some evt ↦ do
      role ← role_of evt
      elim (lookup evt.guild_id c.guilds) [
        | none ↦ some (c, ok (record evt { role = some role }))
        | some container ↦
            let (roles, fine) = update_role raw role container.guild.roles in
            some (
              set_container evt.guild_id (set_roles roles container) c,
              if fine then ok (record evt { role = some role }) else err unmarshal_error,
            )
      ]
  ]

  unfoldable pub guild_role_delete : D → BasicCache → BasicCache × Result GuildRoleDelete
  guild_role_delete raw c = elim (json.guild_role_delete raw) [
    | none ↦ (c, err unmarshal_error)
    | some evt ↦ (
      elim (lookup evt.guild_id c.guilds) [
        | none ↦ c
        | some container ↦
            set_container evt.guild_id
              (record container { guild = delete_role_by_id container.guild evt.role_id }) c
      ],
      ok evt,
    )
  ]
