-- ===== src/Cache/ChunkReads.antt =====
-- What GetMember (cache.go) gives of the members of a chunk.
use disgord.Base.{
  ◌≡◌, refl, ◌∙◌, Option, none, some, List, [], ◌∷◌, map, arith, ◌==◌, if◌then◌else◌, All,
}
use disgord.Base.Dict.{Dict, lookup, lookup-insert}
use disgord.Structs.Data.{User, Member}
use disgord.Cache.State.{BasicCache, GuildCacheContainer, GuildMembersChunk, Json, ok}
use disgord.Cache.Members.{
  without_user, set_container, put_member, put_members, sort_members, users_of, save_chunk,
  read_chunk, guild_members_chunk,
}
use disgord.Cache.Reads.{get_member, get_user, get_current_user, or_miss}
use disgord.Cache.RoundTrip.{
  Distinct, HaveUsers, SameUsers, or_known, store_user, store_users, save_users-store_users,
  lookup-store_user, lookup-store_users_other, SameUsers-store_user,
}
use disgord.Cache.ReadBack.{SameUsers-refl}
use disgord.Cache.Chunks.{key, found_other, found-sort_members}

-- The user that a lookup gives: the current user, the user that was known, or the member's own.
abbrev pub user_as_known : BasicCache → Member → Option User
user_as_known c m = elim m.user [
  | none ↦ none
  | some u ↦
      if m.user_id == c.current_user_id
      then c.current_user
      else some (or_known (lookup m.user_id c.users) u)
]

users_of-HaveUsers :
    (ms : List Member) → HaveUsers ms → users_of ms ≡ some (map (λ (m : Member). m.user) ms)
unfolding users_of
users_of-HaveUsers [] h = refl
users_of-HaveUsers (m ∷ ms) h = ground (arith, h.0.1, users_of-HaveUsers ms h.1)

-- Each member is stored, without its user.
AreStored : GuildCacheContainer → List Member → Type 0
AreStored container =
    All (λ (m : Member). lookup m.user_id container.members ≡ some (without_user m))

put_members-AreStored :
    (ms : List Member) (c : GuildCacheContainer) → Distinct key ms → AreStored (put_members ms c) ms
unfolding put_members AreStored
put_members-AreStored [] c h = tt
put_members-AreStored (m ∷ ms) c h =
    let with_m : GuildCacheContainer = put_member m.user_id (without_user m) c in
    (
      ground (
        arith,
        found_other m.user_id ms with_m h.0,
        lookup-insert m.user_id m.user_id (without_user m) c.members,
      ),
      put_members-AreStored ms with_m h.1,
    )

sort_members-AreStored :
    (ms all : List Member) (c : GuildCacheContainer)
    → Distinct key all
    → AreStored (put_members all c) ms
    → AreStored (put_members (sort_members all) c) ms
unfolding AreStored
sort_members-AreStored [] all c d h = tt
sort_members-AreStored (m ∷ ms) all c d h =
    (found-sort_members m.user_id all c d ∙ h.0, sort_members-AreStored ms all c d h.1)

-- Each member's user is stored, the one that was known before any other.
store_users-All :
    (users : Dict User) (ms : List Member) (store : Dict User)
    → HaveUsers ms
    → Distinct key ms
    → SameUsers users store ms
    → All
        (λ (m : Member).
          (u : User) × (m.user ≡ some u)
          × (lookup m.user_id (store_users ms store) ≡ some (or_known (lookup m.user_id users) u)))
        ms
unfolding store_users
store_users-All users [] store hu h k = tt
store_users-All users (m ∷ ms) store hu h k = (
  (
    hu.0.0,
    hu.0.1,
    ground (
      arith,
      k.0,
      lookup-store_users_other m.user_id ms (store_user m store) hu.1 h.0,
      lookup-store_user m.user_id m hu.0.0 store hu.0.1 hu.0.2,
    ),
  ),
  store_users-All users ms (store_user m store) hu.1 h.1
      (SameUsers-store_user users m hu.0.0 store ms hu.0.1 hu.0.2 h.0 k.1),
)

abbrev container_after : GuildMembersChunk → GuildCacheContainer → GuildCacheContainer
container_after evt container = put_members (sort_members evt.members) container

abbrev after_chunk : GuildMembersChunk → GuildCacheContainer → BasicCache → BasicCache
after_chunk evt container c =
    set_container evt.guild_id (container_after evt container)
      (record c { users = store_users evt.members c.users })

-- A member and its user in the stores, as GetMember finds them.
AreRead : BasicCache → GuildMembersChunk → GuildCacheContainer → List Member → Type 0
AreRead c evt container = All (λ (m : Member).
    get_member (after_chunk evt container c) evt.guild_id m.user_id
    ≡ ok (record m { user = user_as_known c m }))

module _ (c : BasicCache) (evt : GuildMembersChunk) (container : GuildCacheContainer) where
  get_member-after_chunk :
      (ms : List Member)
      → AreStored (container_after evt container) ms
      → All
          (λ (m : Member).
            (u : User) × (m.user ≡ some u)
            × (lookup m.user_id (store_users evt.members c.users)
                ≡ some (or_known (lookup m.user_id c.users) u)))
          ms
      → AreRead c evt container ms
  unfolding AreStored AreRead get_member get_user get_current_user or_miss set_container
  get_member-after_chunk [] hs hu = tt
  get_member-after_chunk (m ∷ ms) hs hu = (
    ground (
      arith,
      hs.0,
      hu.0.1,
      hu.0.2,
      lookup-insert evt.guild_id evt.guild_id (container_after evt container) c.guilds,
    ),
    get_member-after_chunk ms hs.1 hu.1,
  )

module _ {D : Type 0} (json : Json D) where
  -- A chunk of members of a known guild, each once and with its user, never panics; GetMember then
  -- gives each of them, as the chunk has it but with the current user, or the user that was known
  -- before, in place of the chunk's.
  pub get_member-guild_members_chunk :
      (raw : D) (c : BasicCache) (evt : GuildMembersChunk) (container : GuildCacheContainer)
      → read_chunk json raw ≡ some evt
      → lookup evt.guild_id c.guilds ≡ some container
      → HaveUsers evt.members
      → Distinct (λ (m : Member). m.user_id) evt.members
      → (c' : BasicCache) × (guild_members_chunk json raw c
          ≡ some (c', ok (record evt { members = sort_members evt.members })))
        × All
            (λ (m : Member).
              get_member c' evt.guild_id m.user_id ≡ ok (record m { user = user_as_known c m }))
            evt.members
  unfolding guild_members_chunk save_chunk AreRead
  get_member-guild_members_chunk raw c evt container e known hu d = (
    after_chunk evt container c,
    ground (
      arith,
      e,
      known,
      users_of-HaveUsers evt.members hu,
      save_users-store_users evt.members c.users hu,
    ),
    get_member-after_chunk c evt container evt.members
        (sort_members-AreStored evt.members evt.members container d
          (put_members-AreStored evt.members container d))
        (store_users-All c.users evt.members c.users hu d (SameUsers-refl c.users evt.members)),
  )
