-- ===== src/Cache/KeyedMembers.antt =====
-- That the basic cache (cache.go) files everything under its own id: the events of members.
use disgord.Base.{
  ℕ, ◌≡◌, refl, ◌∙◌, ◌≢◌, inl, inr, Option, none, some, [], ◌∷◌, arith, Option-cases, Bool-cases,
}
use disgord.Base.Dict.{Dict, Each, lookup}
use disgord.Structs.Data.{User, Member}
use disgord.Structs.Internals.{update_member}
use disgord.Cache.State.{
  BasicCache, GuildCacheContainer, GuildMembersChunk, GuildMemberRemove, Json, ok, err,
  unmarshal_error,
}
use disgord.Cache.Members.{
  without_user, set_container, add_member, remove_member, read_member, read_chunk,
  guild_member_remove, guild_member_update, guild_member_add, update_member_in, update_stored,
}
use disgord.Cache.Keys.{
  IsUserOf, IsMemberOf, IsGuildOf, IsKeyed, Each-insert, HasNoNil, save_users-SavesUsers,
  remove_member-IsGuildOf,
}

-- The event does not panic, and leaves a cache that files everything under its own id.
abbrev pub StaysKeyed : {A : Type 0} → Option (BasicCache × A) → Type 0
StaysKeyed {A} o = (c' : BasicCache) × (r : A) × (o ≡ some (c', r)) × IsKeyed c'

pub set_container-IsKeyed :
    (k : ℕ) (container : GuildCacheContainer) (c : BasicCache)
    → IsGuildOf k container
    → IsKeyed c
    → IsKeyed (set_container k container c)
unfolding set_container
set_container-IsKeyed k container c h n = record {
  users = n.users;
  channels = n.channels;
  guilds = Each-insert IsGuildOf k container c.guilds h n.guilds;
}

pub with_users-IsKeyed :
    (d : Dict User) (c : BasicCache)
    → Each IsUserOf d
    → IsKeyed c
    → IsKeyed (record c { users = d })
with_users-IsKeyed d c h n = record { users = h; channels = n.channels; guilds = n.guilds }

add_member-IsGuildOf :
    (k : ℕ) (m : Member) (c : GuildCacheContainer) → IsGuildOf k c → IsGuildOf k (add_member m c)
unfolding add_member
add_member-IsGuildOf k m c h = elim (Option-cases (lookup m.user_id c.members)) [
  | inl absent ↦ rw absent (record {
    guild = h.guild;
    members = Each-insert IsMemberOf m.user_id m c.members refl h.members;
  })
  | inr (old, e) ↦ rw e (record {
    guild = h.guild;
    members = Each-insert IsMemberOf m.user_id m c.members refl h.members;
  })
]

module _ {D : Type 0} (json : Json D) where
  -- Reading a member keeps the id that the library has set.
  abbrev pub KeepsMembers : Type 0
  KeepsMembers = (raw : D) (m : Member) → (json.member raw m).0.user_id ≡ m.user_id

  pub record HasUsers : Type 0 where
    pub of_member : (raw : D) (m : Member) → read_member json raw ≡ some m → m.user ≢ none
    pub of_remove :
        (raw : D) (gmr : GuildMemberRemove)
        → json.guild_member_remove raw ≡ some gmr
        → gmr.user ≢ none
    pub of_chunk :
        (raw : D) (evt : GuildMembersChunk) → read_chunk json raw ≡ some evt → HasNoNil evt.members

  read_member-IsMemberOf :
      (raw : D) (m : Member) (u : User)
      → read_member json raw ≡ some m
      → m.user ≡ some u
      → m.user_id ≡ u.id
  unfolding read_member update_member
  read_member-IsMemberOf raw m u e h = ground (arith, e, h)

  update_member_in-IsGuildOf :
      (k : ℕ) (raw : D) (id : ℕ) (evt : Member) (c : GuildCacheContainer)
      → KeepsMembers
      → evt.user_id ≡ id
      → IsGuildOf k c
      → IsGuildOf k (update_member_in json raw id evt c).0
  unfolding update_member_in update_stored
  update_member_in-IsGuildOf k raw id evt c keeps e h = elim (Option-cases (lookup id c.members)) [
    | inl absent ↦
        rw (absent, update_member_in)
          (record {
            guild = h.guild;
            members = Each-insert IsMemberOf id (without_user evt) c.members e h.members;
          })
    | inr (stored, es) ↦
        let m : Member = (json.member raw stored).0 in
        let same : m.user_id ≡ id = keeps raw stored ∙ h.members id stored es in
        elim (Bool-cases (json.member raw stored).1) [
          | inl fine ↦
              rw (es, update_member_in, fine, update_stored)
                (record {
                  guild = h.guild;
                  members = Each-insert IsMemberOf id (without_user m) c.members same h.members;
                })
          | inr failed ↦
              rw (es, update_member_in, failed, update_stored)
                (record {
                  guild = h.guild;
                  members = Each-insert IsMemberOf id m c.members same h.members;
                })
        ]
  ]

  pub guild_member_add-StaysKeyed :
      (raw : D) (c : BasicCache) → HasUsers → IsKeyed c → StaysKeyed (guild_member_add json raw c)
  unfolding guild_member_add
  guild_member_add-StaysKeyed raw c u n = elim (Option-cases (read_member json raw)) [
    | inl unread ↦ (c, err unmarshal_error, ground (arith, unread), n)
    | inr (m, e) ↦ elim (Option-cases m.user) [
      | inl nobody ↦ absurd (u.of_member raw m e nobody)
      | inr (user, eu) ↦
          let store =
            save_users-SavesUsers (some user ∷ []) c.users ((λ i. ground (arith, i)), tt) n.users in
          let saved : BasicCache = record c { users = store.0 } in
          let keyed : IsKeyed saved = with_users-IsKeyed store.0 c store.2 n in
          elim (Option-cases (lookup m.guild_id c.guilds)) [
            | inl unknown ↦ (saved, ok m, ground (arith, e, eu, store.1, unknown), keyed)
            | inr (container, ec) ↦ (
              set_container m.guild_id (add_member m container) saved,
              ok m,
              ground (arith, e, eu, store.1, ec),
              set_container-IsKeyed m.guild_id (add_member m container) saved
                  (add_member-IsGuildOf m.guild_id m container (n.guilds m.guild_id container ec))
                  keyed,
            )
          ]
    ]
  ]

  pub guild_member_update-StaysKeyed :
      (raw : D) (c : BasicCache)
      → HasUsers
      → KeepsMembers
      → IsKeyed c
      → StaysKeyed (guild_member_update json raw c)
  unfolding guild_member_update
  guild_member_update-StaysKeyed raw c u keeps n = elim (Option-cases (read_member json raw)) [
    | inl unread ↦ (c, err unmarshal_error, ground (arith, unread), n)
    | inr (m, e) ↦ elim (Option-cases (lookup m.guild_id c.guilds)) [
      | inl unknown ↦ (c, ok m, ground (arith, e, unknown), n)
      | inr (container, ec) ↦ elim (Option-cases m.user) [
        | inl nobody ↦ absurd (u.of_member raw m e nobody)
        | inr (user, eu) ↦
            let container' : GuildCacheContainer =
              (update_member_in json raw user.id m container).0 in
            (
              set_container m.guild_id container' c,
              (update_member_in json raw user.id m container).1,
              ground (arith, e, ec, eu),
              set_container-IsKeyed m.guild_id container' c
                  (update_member_in-IsGuildOf m.guild_id raw user.id m container keeps
                    (read_member-IsMemberOf raw m user e eu) (n.guilds m.guild_id container ec))
                  n,
            )
      ]
    ]
  ]

  pub guild_member_remove-StaysKeyed :
      (raw : D) (c : BasicCache)
      → HasUsers
      → IsKeyed c
      → StaysKeyed (guild_member_remove json raw c)
  unfolding guild_member_remove
  guild_member_remove-StaysKeyed raw c u n = elim (Option-cases (json.guild_member_remove raw)) [
    | inl unread ↦ (c, err unmarshal_error, ground (arith, unread), n)
    | inr (gmr, e) ↦ elim (Option-cases (lookup gmr.guild_id c.guilds)) [
      | inl unknown ↦ (c, ok gmr, ground (arith, e, unknown), n)
      | inr (container, ec) ↦ elim (Option-cases gmr.user) [
        | inl nobody ↦ absurd (u.of_remove raw gmr e nobody)
        | inr (user, eu) ↦ (
          set_container gmr.guild_id (remove_member user.id container) c,
          ok gmr,
          ground (arith, e, ec, eu),
          set_container-IsKeyed gmr.guild_id (remove_member user.id container) c
              (remove_member-IsGuildOf gmr.guild_id user.id container
                (n.guilds gmr.guild_id container ec))
              n,
        )
      ]
    ]
  ]
