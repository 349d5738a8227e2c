-- ===== src/Cache/CountRuns.antt =====
-- MemberCount of a guild in the basic cache (cache.go) over a history of the events of members.
use disgord.Base.{
  ℕ, ◌≡◌, refl, sym, ap, subst, ◌∙◌, ◌≢◌, inl, inr, Option, none, some, List, [], ◌∷◌, arith,
  is_some, if◌then◌else◌, ◌>>=◌, Option-cases, ℕ_discrete,
}
use disgord.Base.Dict.{lookup, insert, lookup-insert}
use disgord.Structs.Data.{User, Member}
use disgord.Cache.State.{BasicCache, GuildCacheContainer, GuildMemberRemove, Json, save_users}
use disgord.Cache.Members.{
  set_container, add_member, remove_member, update_member_in, read_member, guild_member_add,
  guild_member_remove, guild_member_update,
}
use disgord.Cache.Counts.{
  IsCounted, add_member-IsCounted, remove_member-IsCounted, update_member_in-IsCounted,
}

abbrev saved_user : User → BasicCache → BasicCache
saved_user user c = record c {
  users = if is_some (lookup user.id c.users) then c.users else insert user.id user c.users;
}

save_users_one :
    (u : User) (c : BasicCache) → save_users (some u ∷ []) c.users ≡ some (saved_user u c).users
unfolding save_users
save_users_one u c = ground arith

module _ {D : Type 0} (json : Json D) where
  pub data MemberEvent : Type 0 where
    added updated removed : D → MemberEvent

  unfoldable pub apply : MemberEvent → BasicCache → Option BasicCache
  apply (added raw) c = do (c', r) ← guild_member_add json raw c; some c'
  apply (updated raw) c = do (c', r) ← guild_member_update json raw c; some c'
  apply (removed raw) c = do (c', r) ← guild_member_remove json raw c; some c'

  unfoldable pub run : List MemberEvent → BasicCache → Option BasicCache
  run [] c = some c
  run (e ∷ es) c = do c' ← apply e c; run es c'

  -- Discord sends the user with each event of a member.
  pub record SendsUsers : Type 0 where
    pub of_member : (raw : D) (m : Member) → read_member json raw ≡ some m → m.user ≢ none
    pub of_remove :
        (raw : D) (gmr : GuildMemberRemove)
        → json.guild_member_remove raw ≡ some gmr
        → gmr.user ≢ none

  -- A known guild with `n` members that the cache does not hold.
  pub record Misses (guild_id n : ℕ) (c : BasicCache) : Type 0 where
    pub container : GuildCacheContainer
    pub known : lookup guild_id c.guilds ≡ some container
    pub counted : IsCounted n container

  Misses-set_container :
      (g n j : ℕ) (container : GuildCacheContainer) (c : BasicCache)
      → (j ≡ g → IsCounted n container)
      → Misses g n c
      → Misses g n (set_container j container c)
  unfolding set_container
  Misses-set_container g n j container c h k = elim (ℕ_discrete g j) [
    | yes p ↦ record {
      container = container;
      known = ground (arith, p, lookup-insert g j container c.guilds);
      counted = h (sym p);
    }
    | no p ↦ record {
      container = k.container;
      known = ground (arith, k.known, p, lookup-insert g j container c.guilds);
      counted = k.counted;
    }
  ]

  known-IsCounted :
      (g n j : ℕ) (container : GuildCacheContainer) (c : BasicCache)
      → Misses g n c
      → lookup j c.guilds ≡ some container
      → j ≡ g
      → IsCounted n container
  known-IsCounted g n j container c k e p =
      let same : some k.container ≡ some container =
        sym k.known ∙ ap (λ i. lookup i c.guilds) (sym p) ∙ e in
      let same' : k.container ≡ container = ground arith in subst (IsCounted n) same' k.counted

  -- The event leaves a cache in which the guild misses as many members as before.
  abbrev Keeps : ℕ → ℕ → Option BasicCache → Type 0
  Keeps g n o = (c' : BasicCache) × (o ≡ some c') × Misses g n c'

  Misses-saved_user :
      (g n : ℕ) (u : User) (c : BasicCache) → Misses g n c → Misses g n (saved_user u c)
  Misses-saved_user g n u c k = record {
    container = k.container;
    known = k.known;
    counted = k.counted;
  }

  added-Keeps :
      (g n : ℕ) (raw : D) (c : BasicCache)
      → SendsUsers
      → Misses g n c
      → Keeps g n (apply (added raw) c)
  unfolding apply guild_member_add
  added-Keeps g n raw c s k = elim (Option-cases (read_member json raw)) [
    | inl unread ↦ (c, ground (arith, unread), k)
    | inr (m, e) ↦ elim (Option-cases m.user) [
      | inl nobody ↦ absurd (s.of_member raw m e nobody)
      | inr (u, eu) ↦ elim (Option-cases (lookup m.guild_id c.guilds)) [
        | inl unknown ↦ (
          saved_user u c,
          ground (arith, e, eu, save_users_one u c, unknown),
          Misses-saved_user g n u c k,
        )
        | inr (container, ec) ↦ (
          set_container m.guild_id (add_member m container) (saved_user u c),
          ground (arith, e, eu, save_users_one u c, ec),
          Misses-set_container g n m.guild_id (add_member m container) (saved_user u c)
              (λ p.
                add_member-IsCounted n m container
                  (known-IsCounted g n m.guild_id container c k ec p))
              (Misses-saved_user g n u c k),
        )
      ]
    ]
  ]

  updated-Keeps :
      (g n : ℕ) (raw : D) (c : BasicCache)
      → SendsUsers
      → Misses g n c
      → Keeps g n (apply (updated raw) c)
  unfolding apply guild_member_update
  updated-Keeps g n raw c s k = elim (Option-cases (read_member json raw)) [
    | inl unread ↦ (c, ground (arith, unread), k)
    | inr (m, e) ↦ elim (Option-cases (lookup m.guild_id c.guilds)) [
      | inl unknown ↦ (c, ground (arith, e, unknown), k)
      | inr (container, ec) ↦ elim (Option-cases m.user) [
        | inl nobody ↦ absurd (s.of_member raw m e nobody)
        | inr (u, eu) ↦
            let container' : GuildCacheContainer = (update_member_in json raw u.id m container).0 in
            (
              set_container m.guild_id container' c,
              ground (arith, e, ec, eu),
              Misses-set_container g n m.guild_id container' c
                  (λ p.
                    update_member_in-IsCounted json n raw u.id m container
                      (known-IsCounted g n m.guild_id container c k ec p))
                  k,
            )
      ]
    ]
  ]

  removed-Keeps :
      (g n : ℕ) (raw : D) (c : BasicCache)
      → SendsUsers
      → Misses g n c
      → Keeps g n (apply (removed raw) c)
  unfolding apply guild_member_remove
  removed-Keeps g n raw c s k = elim (Option-cases (json.guild_member_remove raw)) [
    | inl unread ↦ (c, ground (arith, unread), k)
    | inr (gmr, e) ↦ elim (Option-cases (lookup gmr.guild_id c.guilds)) [
      | inl unknown ↦ (c, ground (arith, e, unknown), k)
      | inr (container, ec) ↦ elim (Option-cases gmr.user) [
        | inl nobody ↦ absurd (s.of_remove raw gmr e nobody)
        | inr (u, eu) ↦ (
          set_container gmr.guild_id (remove_member u.id container) c,
          ground (arith, e, ec, eu),
          Misses-set_container g n gmr.guild_id (remove_member u.id container) c
              (λ p.
                remove_member-IsCounted n u.id container
                  (known-IsCounted g n gmr.guild_id container c k ec p))
              k,
        )
      ]
    ]
  ]

  apply-Keeps :
      (g n : ℕ) (e : MemberEvent) (c : BasicCache)
      → SendsUsers
      → Misses g n c
      → Keeps g n (apply e c)
  apply-Keeps g n (added raw) c s k = added-Keeps g n raw c s k
  apply-Keeps g n (updated raw) c s k = updated-Keeps g n raw c s k
  apply-Keeps g n (removed raw) c s k = removed-Keeps g n raw c s k

  -- However members join, change and leave, with the user in each event, nothing panics, and MemberCount
  -- of a known guild moves with the members that the cache holds: the difference stays what it was.
  pub run-Keeps :
      (g n : ℕ) (es : List MemberEvent) (c : BasicCache)
      → SendsUsers
      → Misses g n c
      → (c' : BasicCache) × (run es c ≡ some c') × Misses g n c'
  unfolding run
  run-Keeps g n [] c s k = (c, refl, k)
  run-Keeps g n (e ∷ es) c s k =
      let now = apply-Keeps g n e c s k in
      let rest = run-Keeps g n es now.0 s now.2 in (rest.0, ground (arith, now.1, rest.1), rest.2)
