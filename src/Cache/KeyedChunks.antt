-- ===== src/Cache/KeyedChunks.antt =====
-- That the basic cache (cache.go) files everything under its own id: a chunk of members.
use disgord.Base.{
  ◌≡◌, refl, ◌≢◌, inl, inr, Option, none, some, List, [], ◌∷◌, arith, All, Option-cases,
}
use disgord.Base.Dict.{lookup}
use disgord.Structs.Data.{User, Member}
use disgord.Cache.State.{BasicCache, Json, ok, err, unmarshal_error}
use disgord.Cache.Members.{
  set_container, put_members, sort_members, users_of, read_chunk, save_chunk, guild_members_chunk,
}
use disgord.Cache.Keys.{IsKeyed, HasNoNil, save_users-SavesUsers, put_members-IsGuildOf}
use disgord.Cache.KeyedMembers.{StaysKeyed, HasUsers, set_container-IsKeyed, with_users-IsKeyed}

users_of-no_nil :
    (ms : List Member)
    → HasNoNil ms
    → (us : List (Option User)) × (users_of ms ≡ some us) × All (λ u. u ≢ none) us
unfolding users_of
users_of-no_nil [] h = ([], refl, tt)
users_of-no_nil (m ∷ ms) h = elim (Option-cases m.user) [
  | inl nobody ↦ absurd (h.0 nobody)
  | inr (u, e) ↦
      let rest = users_of-no_nil ms h.1 in
      (some u ∷ rest.0, ground (arith, e, rest.1), ((λ i. ground (arith, i)), rest.2))
]

module _ {D : Type 0} (json : Json D) where
  pub guild_members_chunk-StaysKeyed :
      (raw : D) (c : BasicCache)
      → HasUsers json
      → IsKeyed c
      → StaysKeyed (guild_members_chunk json raw c)
  unfolding guild_members_chunk save_chunk
  guild_members_chunk-StaysKeyed raw c u n = elim (Option-cases (read_chunk json raw)) [
    | inl unread ↦ (c, err unmarshal_error, ground (arith, unread), n)
    | inr (evt, e) ↦
        let us = users_of-no_nil evt.members (u.of_chunk raw evt e) in
        let store = save_users-SavesUsers us.0 c.users us.2 n.users in
        let saved : BasicCache = record c { users = store.0 } in
        let keyed : IsKeyed saved = with_users-IsKeyed store.0 c store.2 n in
        let sorted : List Member = sort_members evt.members in
        elim (Option-cases (lookup evt.guild_id c.guilds)) [
          | inl unknown ↦ (
            saved,
            ok (record evt { members = sorted }),
            ground (arith, e, us.1, store.1, unknown),
            keyed,
          )
          | inr (container, ec) ↦ (
            set_container evt.guild_id (put_members sorted container) saved,
            ok (record evt { members = sorted }),
            ground (arith, e, us.1, store.1, ec),
            set_container-IsKeyed evt.guild_id (put_members sorted container) saved
                (put_members-IsGuildOf evt.guild_id sorted container
                  (n.guilds evt.guild_id container ec))
                keyed,
          )
        ]
  ]
