-- ===== src/Cache/Members.antt =====
-- The events of guild members (cache.go), with the reading of these events (cache_gen.go, events.go).
use disgord.Base.{ℕ, Option, none, some, List, [], ◌∷◌, map, ltb, is_some, if◌then◌else◌, ◌>>=◌}
use disgord.Base.Dict.{lookup, insert, erase}
use disgord.Structs.Data.{User, Member, zero_member}
use disgord.Structs.Internals.{update_member, in_guild}
use disgord.Cache.State.{
  BasicCache, GuildCacheContainer, Json, Result, ok, err, unmarshal_error, GuildMembersChunk,
  GuildMemberRemove, save_users, incr, decr,
}

abbrev pub without_user : Member → Member
without_user m = record m { user = none }

unfoldable pub set_container : ℕ → GuildCacheContainer → BasicCache → BasicCache
set_container id container c = record c { guilds = insert id container c.guilds }

abbrev pub count : (ℕ → ℕ) → GuildCacheContainer → GuildCacheContainer
count f container = record container {
  guild = record container.guild { member_count = f container.guild.member_count };
}

abbrev pub put_member : ℕ → Member → GuildCacheContainer → GuildCacheContainer
put_member id m container = record container { members = insert id m container.members }

-- `sort.Slice` by the user's id
unfoldable pub insert_member : Member → List Member → List Member
insert_member m [] = m ∷ []
insert_member m (n ∷ ms) = if ltb m.user_id n.user_id then m ∷ n ∷ ms else n ∷ insert_member m ms

unfoldable pub sort_members : List Member → List Member
sort_members [] = []
sort_members (m ∷ ms) = insert_member m (sort_members ms)

-- Each user is copied, which panics on nil.
unfoldable pub users_of : List Member → Option (List (Option User))
users_of [] = some []
users_of (m ∷ ms) = do user ← m.user; users ← users_of ms; some (some user ∷ users)

-- the loop of GuildMembersChunk
unfoldable pub put_members : List Member → GuildCacheContainer → GuildCacheContainer
put_members [] container = container
put_members (m ∷ ms) container = put_members ms (put_member m.user_id (without_user m) container)

unfoldable pub remove_member : ℕ → GuildCacheContainer → GuildCacheContainer
remove_member id container =
    let counted : GuildCacheContainer =
      if is_some (lookup id container.members) then count decr container else container in
    record counted { members = erase id counted.members }

unfoldable pub add_member : Member → GuildCacheContainer → GuildCacheContainer
add_member m container =
    let counted : GuildCacheContainer =
      if is_some (lookup m.user_id container.members) then container else count incr container in
    put_member m.user_id m counted

module _ {D : Type 0} (json : Json D) where
  -- an event that is a member, read into the zero value
  unfoldable pub read_member : D → Option Member
  read_member raw =
      let (m, fine) = json.member raw zero_member in if fine then some (update_member m) else none

  unfoldable pub read_chunk : D → Option GuildMembersChunk
  read_chunk raw = elim (json.guild_members_chunk raw) [
    | none ↦ none
    | some evt ↦
        some
          (record evt { members = map (λ m. update_member (in_guild evt.guild_id m)) evt.members })
  ]

  unfoldable pub save_chunk :
      GuildMembersChunk → BasicCache → Option (BasicCache × Result GuildMembersChunk)
  save_chunk evt c = do
    users ← users_of evt.members
    store ← save_users users c.users
    let sorted : List Member = sort_members evt.members
    let saved : BasicCache = record c { users = store }
    some (
      elim (lookup evt.guild_id c.guilds) [
        | none ↦ saved
        | some container ↦ set_container evt.guild_id (put_members sorted container) saved
      ],
      ok (record evt { members = sorted }),
    )

  unfoldable pub guild_members_chunk :
      D → BasicCache → Option (BasicCache × Result GuildMembersChunk)
  guild_members_chunk raw c = elim (read_chunk raw) [
    | none ↦ some (c, err unmarshal_error)
    | some evt ↦ save_chunk evt c
  ]

  unfoldable pub guild_member_remove :
      D → BasicCache → Option (BasicCache × Result GuildMemberRemove)
  guild_member_remove raw c = elim (json.guild_member_remove raw) [
    | none ↦ some (c, err unmarshal_error)
    | some gmr ↦ elim (lookup gmr.guild_id c.guilds) [
      | none ↦ some (c, ok gmr)
      | some container ↦ do
        user ← gmr.user
        some (set_container gmr.guild_id (remove_member user.id container) c, ok gmr)
    ]
  ]

  -- A member that is stored is read over; the user is dropped unless that fails.
  unfoldable pub update_stored :
      D → ℕ → Member → GuildCacheContainer → Member → GuildCacheContainer × Result Member
  update_stored raw id evt container stored =
      let (m, fine) = json.member raw stored in
      if fine
      then (put_member id (without_user m) container, ok evt)
      else (put_member id m container, err unmarshal_error)

  unfoldable pub update_member_in :
      D → ℕ → Member → GuildCacheContainer → GuildCacheContainer × Result Member
  update_member_in raw id evt container = elim (lookup id container.members) [
    | some stored ↦ update_stored raw id evt container stored
    | none ↦ (put_member id (without_user evt) (count incr container), ok evt)
  ]

  unfoldable pub guild_member_update : D → BasicCache → Option (BasicCache × Result Member)
  guild_member_update raw c = elim (read_member raw) [
    | none ↦ some (c, err unmarshal_error)
    | some evt ↦ elim (lookup evt.guild_id c.guilds) [
      | none ↦ some (c, ok evt)
      | some container ↦ do
        user ← evt.user
        let (container', result) = update_member_in raw user.id evt container
        some (set_container evt.guild_id container' c, result)
    ]
  ]

  unfoldable pub guild_member_add : D → BasicCache → Option (BasicCache × Result Member)
  guild_member_add raw c = elim (read_member raw) [
    | none ↦ some (c, err unmarshal_error)
    | some evt ↦ do
      user ← evt.user
      store ← save_users (some user ∷ []) c.users
      let saved : BasicCache = record c { users = store }
      some (
        elim (lookup evt.guild_id c.guilds) [
          | none ↦ saved
          | some container ↦ set_container evt.guild_id (add_member evt container) saved
        ],
        ok evt,
      )
  ]
