-- ===== src/Cache/RoleRuns.antt =====
-- The roles of a guild in the basic cache (cache.go) over a history of role events, against a
-- function from ids to roles.
use disgord.Base.{ℕ, ◌≡◌, refl, sym, subst, inl, inr, some, List, [], ◌∷◌, arith, Option-cases}
use disgord.Base.Dict.{lookup}
use disgord.Structs.Data.{Role}
use disgord.Structs.Roles.{DistinctRoles, role_at}
use disgord.Cache.State.{BasicCache, Json, ok}
use disgord.Cache.Reads.{get_guild_roles}
use disgord.Cache.RoleLists.{View, Shows}
use disgord.Cache.RoleSteps.{
  RoleEvent, created, updated, deleted, apply, run, meaning, replay, SendsRoles, Reads, Follows,
  created-Follows, updated-Follows, deleted-Follows,
}

module _ {D : Type 0} (json : Json D) where
  apply-Follows :
      (g : ℕ) (e : RoleEvent json) (f : View) (c : BasicCache)
      → SendsRoles json
      → Reads json g f c
      → Follows json g (meaning json g e f) (apply json e c)
  apply-Follows g (created raw) f c s k = created-Follows json g raw f c s k
  apply-Follows g (updated raw) f c s k = updated-Follows json g raw f c s k
  apply-Follows g (deleted raw) f c s k = deleted-Follows json g raw f c k

  run-Follows :
      (g : ℕ) (es : List (RoleEvent json)) (f : View) (c : BasicCache)
      → SendsRoles json
      → Reads json g f c
      → Follows json g (replay json g es f) (run json es c)
  unfolding run replay
  run-Follows g [] f c s k = (c, refl, k)
  run-Follows g (e ∷ es) f c s k =
      let now = apply-Follows g e f c s k in
      let rest = run-Follows g es (meaning json g e f) now.0 s now.2 in
      (rest.0, ground (arith, now.1, rest.1), rest.2)

  -- However roles are created, updated and deleted in a guild that is known, with each id once at the
  -- start, nothing panics; GetGuildRoles then gives each id once, and by id the roles that replaying the
  -- events on a function gives.
  pub get_guild_roles-run :
      (g : ℕ) (es : List (RoleEvent json)) (rs : List Role) (c : BasicCache)
      → SendsRoles json
      → get_guild_roles c g ≡ ok rs
      → DistinctRoles rs
      → (c' : BasicCache) × (rs' : List Role) × (run json es c ≡ some c')
        × (get_guild_roles c' g ≡ ok rs')
        × DistinctRoles rs'
        × ((j : ℕ) → role_at j rs' ≡ replay json g es (λ i. role_at i rs) j)
  unfolding get_guild_roles
  get_guild_roles-run g es rs c s e d = elim (Option-cases (lookup g c.guilds)) [
    | inl unknown ↦ absurd (ground (arith, e, unknown))
    | inr (container, ec) ↦
        let start : Reads json g (λ i. role_at i rs) c = record {
          container = container;
          known = ec;
          shows =
              let same : container.guild.roles ≡ rs = ground (arith, e, ec) in
              subst (Shows (λ i. role_at i rs)) (sym same)
                (record { distinct = d; reads = λ j. refl });
        } in
        let end = run-Follows g es (λ i. role_at i rs) c s start in
        (
          end.0,
          end.2.container.guild.roles,
          end.1,
          ground (arith, end.2.known),
          end.2.shows.distinct,
          end.2.shows.reads,
        )
  ]
