-- ===== src/Cache/Counts.antt =====
-- MemberCount of a guild in the basic cache (cache.go) against the members that the cache holds.
use disgord.Base.{ℕ, ◌+◌, ◌-◌, ◌%◌, ◌≡◌, inl, inr, some, arith, length, Option-cases}
use disgord.Base.Dict.{
  lookup, NodupKeys, insert-NodupKeys, erase-NodupKeys, length-insert, length-erase,
}
use disgord.Structs.Data.{Member}
use disgord.Cache.State.{GuildCacheContainer, Json, uint_mod}
use disgord.Cache.Members.{without_user, add_member, remove_member, update_stored, update_member_in}

-- How many members of the guild the cache does not hold, by MemberCount (on a uint).
abbrev pub uncached : GuildCacheContainer → ℕ
uncached container =
    (container.guild.member_count + uint_mod - length container.members % uint_mod) % uint_mod

pub record IsCounted (missing : ℕ) (container : GuildCacheContainer) : Type 0 where
  pub keys : NodupKeys container.members
  pub missing_members : uncached container ≡ missing

pub add_member-IsCounted :
    (n : ℕ) (m : Member) (c : GuildCacheContainer) → IsCounted n c → IsCounted n (add_member m c)
unfolding add_member
add_member-IsCounted n m c h = record {
  keys = ground (arith, insert-NodupKeys m.user_id m c.members h.keys);
  missing_members = ground (arith, length-insert m.user_id m c.members, h.missing_members);
}

pub remove_member-IsCounted :
    (n id : ℕ) (c : GuildCacheContainer) → IsCounted n c → IsCounted n (remove_member id c)
unfolding remove_member
remove_member-IsCounted n id c h = record {
  keys = ground (arith, erase-NodupKeys id c.members h.keys);
  missing_members = ground (arith, length-erase id c.members h.keys, h.missing_members);
}

module _ {D : Type 0} (json : Json D) where
  update_stored-IsCounted :
      (n : ℕ) (raw : D) (id : ℕ) (evt : Member) (c : GuildCacheContainer) (stored : Member)
      → lookup id c.members ≡ some stored
      → IsCounted n c
      → IsCounted n (update_stored json raw id evt c stored).0
  unfolding update_stored
  update_stored-IsCounted n raw id evt c stored e h =
      let m : Member = (json.member raw stored).0 in
      record {
        keys = ground (
          arith,
          insert-NodupKeys id m c.members h.keys,
          insert-NodupKeys id (without_user m) c.members h.keys,
        );
        missing_members = ground (
          arith,
          e,
          length-insert id m c.members,
          length-insert id (without_user m) c.members,
          h.missing_members,
        );
      }

  pub update_member_in-IsCounted :
      (n : ℕ) (raw : D) (id : ℕ) (evt : Member) (c : GuildCacheContainer)
      → IsCounted n c
      → IsCounted n (update_member_in json raw id evt c).0
  unfolding update_member_in
  update_member_in-IsCounted n raw id evt c h = elim (Option-cases (lookup id c.members)) [
    | inl absent ↦ record {
      keys = ground (arith, absent, insert-NodupKeys id (without_user evt) c.members h.keys);
      missing_members =
          ground (arith, absent, length-insert id (without_user evt) c.members, h.missing_members);
    }
    | inr (stored, e) ↦ rw (e, update_member_in) (update_stored-IsCounted n raw id evt c stored e h)
  ]
