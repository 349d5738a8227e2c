-- ===== src/Cache/RoleSteps.antt =====
-- The roles of a guild in the basic cache (cache.go) after one role event, against a function
-- from ids to roles.
use disgord.Base.{
  ℕ, true, false, ◌≡◌, subst, ◌≢◌, inl, inr, Option, none, some, List, [], ◌∷◌, arith, ◌==◌,
  if◌then◌else◌, ℕ_discrete, Option-cases, ◌>>=◌,
}
use disgord.Base.Dict.{lookup, lookup-insert}
use disgord.Structs.Data.{Role}
use disgord.Structs.Guilds.{delete_role_by_id, delete_role}
use disgord.Cache.State.{BasicCache, GuildCacheContainer, GuildRoleEvent, Json}
use disgord.Cache.Members.{set_container}
use disgord.Cache.Roles.{
  role_of, put_role, set_roles, update_role, guild_role_create, guild_role_update,
  guild_role_delete,
}
use disgord.Cache.RoleLists.{
  View, at_id, Shows, put_role-Shows, delete_role-Shows, update_role-Shows, updated_role,
}

module _ {D : Type 0} (json : Json D) where
  pub data RoleEvent : Type 0 where
    created updated deleted : D → RoleEvent

  unfoldable pub apply : RoleEvent → BasicCache → Option BasicCache
  apply (created raw) c = do (c', r) ← guild_role_create json raw c; some c'
  apply (updated raw) c = do (c', r) ← guild_role_update json raw c; some c'
  apply (deleted raw) c = some (guild_role_delete json raw c).0

  unfoldable pub run : List RoleEvent → BasicCache → Option BasicCache
  run [] c = some c
  run (e ∷ es) c = do c' ← apply e c; run es c'

  -- The change that an event of a guild means for the function from ids to its roles.
  abbrev pub meaning : ℕ → RoleEvent → View → View
  meaning g (created raw) f = elim (json.guild_role_event raw) [
    | none ↦ f
    | some evt ↦ elim (role_of evt) [
      | none ↦ f
      | some role ↦ if evt.guild_id == g then at_id role.id (some role) f else f
    ]
  ]
  meaning g (updated raw) f = elim (json.guild_role_event raw) [
    | none ↦ f
    | some evt ↦ elim (role_of evt) [
      | none ↦ f
      | some role ↦
          if evt.guild_id == g
          then at_id role.id (some (updated_role json raw role (f role.id))) f
          else f
    ]
  ]
  meaning g (deleted raw) f = elim (json.guild_role_delete raw) [
    | none ↦ f
    | some evt ↦ if evt.guild_id == g then at_id evt.role_id none f else f
  ]

  unfoldable pub replay : ℕ → List RoleEvent → View → View
  replay g [] f = f
  replay g (e ∷ es) f = replay g es (meaning g e f)

  -- Discord sends the role with each event that has one, and an update has the id of its role.
  pub record SendsRoles : Type 0 where
    pub has_role :
        (raw : D) (evt : GuildRoleEvent) → json.guild_role_event raw ≡ some evt → role_of evt ≢ none
    pub keeps :
        (raw : D) (evt : GuildRoleEvent) (role r : Role)
        → json.guild_role_event raw ≡ some evt
        → role_of evt ≡ some role
        → r.id ≡ role.id
        → (json.role raw r).0.id ≡ role.id

  -- The roles of the guild, as the cache has them, read as the function.
  pub record Reads (g : ℕ) (f : View) (c : BasicCache) : Type 0 where
    pub container : GuildCacheContainer
    pub known : lookup g c.guilds ≡ some container
    pub shows : Shows f container.guild.roles

  Reads-set :
      (g j : ℕ) (f f' : View) (container container' : GuildCacheContainer) (c : BasicCache)
      → lookup j c.guilds ≡ some container
      → (Shows f container.guild.roles → Shows f' container'.guild.roles)
      → Reads g f c
      → Reads g (if j == g then f' else f) (set_container j container' c)
  unfolding set_container
  Reads-set g j f f' container container' c e h k = elim (ℕ_discrete g j) [
    | yes p ↦
        let same : k.container ≡ container = ground (arith, p, k.known, e) in
        let new : Reads g f' (set_container j container' c) = record {
          container = container';
          known = ground (arith, p, lookup-insert g j container' c.guilds);
          shows = h (subst (λ (x : GuildCacheContainer). Shows f x.guild.roles) same k.shows);
        } in
        let hit : (j == g) ≡ true = ground (arith, p) in rw hit new
    | no p ↦
        let old : Reads g f (set_container j container' c) = record {
          container = k.container;
          known = ground (arith, k.known, p, lookup-insert g j container' c.guilds);
          shows = k.shows;
        } in
        let miss : (j == g) ≡ false = ground (arith, p) in rw miss old
  ]

  Reads-skip :
      (g j : ℕ) (f f' : View) (c : BasicCache)
      → lookup j c.guilds ≡ none
      → Reads g f c
      → Reads g (if j == g then f' else f) c
  Reads-skip g j f f' c e k = let miss : (j == g) ≡ false = ground (arith, e, k.known) in rw miss k

  abbrev pub Follows : ℕ → View → Option BasicCache → Type 0
  Follows g f o = (c' : BasicCache) × (o ≡ some c') × Reads g f c'

  pub created-Follows :
      (g : ℕ) (raw : D) (f : View) (c : BasicCache)
      → SendsRoles
      → Reads g f c
      → Follows g (meaning g (created raw) f) (apply (created raw) c)
  unfolding apply guild_role_create
  created-Follows g raw f c s k = elim (Option-cases (json.guild_role_event raw)) [
    | inl unread ↦ (c, ground (arith, unread), rw (unread, meaning) k)
    | inr (evt, e) ↦ elim (Option-cases (role_of evt)) [
      | inl no_role ↦ absurd (s.has_role raw evt e no_role)
      | inr (role, er) ↦ elim (Option-cases (lookup evt.guild_id c.guilds)) [
        | inl unknown ↦ (
          c,
          ground (arith, e, er, unknown),
          rw (e, meaning, er)
              (Reads-skip g evt.guild_id f (at_id role.id (some role) f) c unknown k),
        )
        | inr (container, ec) ↦
            let container' : GuildCacheContainer =
              set_roles (put_role role container.guild.roles) container in
            (
              set_container evt.guild_id container' c,
              ground (arith, e, er, ec),
              rw (e, meaning, er)
                  (Reads-set g evt.guild_id f (at_id role.id (some role) f) container container' c
                    ec (put_role-Shows f role container.guild.roles) k),
            )
      ]
    ]
  ]

  pub updated-Follows :
      (g : ℕ) (raw : D) (f : View) (c : BasicCache)
      → SendsRoles
      → Reads g f c
      → Follows g (meaning g (updated raw) f) (apply (updated raw) c)
  unfolding apply guild_role_update
  updated-Follows g raw f c s k = elim (Option-cases (json.guild_role_event raw)) [
    | inl unread ↦ (c, ground (arith, unread), rw (unread, meaning) k)
    | inr (evt, e) ↦ elim (Option-cases (role_of evt)) [
      | inl no_role ↦ absurd (s.has_role raw evt e no_role)
      | inr (role, er) ↦
          let f' : View = at_id role.id (some (updated_role json raw role (f role.id))) f in
          elim (Option-cases (lookup evt.guild_id c.guilds)) [
            | inl unknown ↦ (
              c,
              ground (arith, e, er, unknown),
              rw (e, meaning, er) (Reads-skip g evt.guild_id f f' c unknown k),
            )
            | inr (container, ec) ↦
                let container' : GuildCacheContainer =
                  set_roles (update_role json raw role container.guild.roles).0 container in
                (
                  set_container evt.guild_id container' c,
                  ground (arith, e, er, ec),
                  rw (e, meaning, er)
                      (Reads-set g evt.guild_id f f' container container' c ec
                        (update_role-Shows json raw role (λ r h. s.keeps raw evt role r e er h) f
                          container.guild.roles)
                        k),
                )
          ]
    ]
  ]

  pub deleted-Follows :
      (g : ℕ) (raw : D) (f : View) (c : BasicCache)
      → Reads g f c
      → Follows g (meaning g (deleted raw) f) (apply (deleted raw) c)
  unfolding apply guild_role_delete delete_role_by_id
  deleted-Follows g raw f c k = elim (Option-cases (json.guild_role_delete raw)) [
    | inl unread ↦ (c, ground (arith, unread), rw (unread, meaning) k)
    | inr (evt, e) ↦ elim (Option-cases (lookup evt.guild_id c.guilds)) [
      | inl unknown ↦ (
        c,
        ground (arith, e, unknown),
        rw (e, meaning) (Reads-skip g evt.guild_id f (at_id evt.role_id none f) c unknown k),
      )
      | inr (container, ec) ↦
          let container' : GuildCacheContainer =
            set_roles (delete_role evt.role_id container.guild.roles) container in
          (
            set_container evt.guild_id container' c,
            ground (arith, e, ec),
            rw (e, meaning)
                (Reads-set g evt.guild_id f (at_id evt.role_id none f) container container' c ec
                  (delete_role-Shows f evt.role_id container.guild.roles) k),
          )
    ]
  ]
