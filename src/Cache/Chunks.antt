-- ===== src/Cache/Chunks.antt =====
-- The members of a chunk (cache.go, GuildMembersChunk), read back by GetMember.
use disgord.Base.{
  ℕ, true, false, ◌≡◌, refl, ◌∙◌, ◌≢◌, Option, List, [], ◌∷◌, arith, ltb, if◌then◌else◌, All,
}
use disgord.Base.Dict.{lookup, lookup-insert}
use disgord.Structs.Data.{Member}
use disgord.Cache.State.{GuildCacheContainer}
use disgord.Cache.Members.{without_user, put_member, put_members, insert_member, sort_members}
use disgord.Cache.RoundTrip.{Distinct}

abbrev pub key : Member → ℕ
key m = m.user_id

module _ (P : Member → Type 0) where
  All-insert_member : (m : Member) (ms : List Member) → P m → All P ms → All P (insert_member m ms)
  unfolding insert_member
  All-insert_member m [] p h = (p, tt)
  All-insert_member m (n ∷ ms) p h =
      elim (ltb m.user_id n.user_id)
        as (λ b. All P (if b then m ∷ n ∷ ms else n ∷ insert_member m ms)) [
          | true ↦ (p, h)
          | false ↦ (h.0, All-insert_member m ms p h.1)
        ]

  All-sort_members : (ms : List Member) → All P ms → All P (sort_members ms)
  unfolding sort_members
  All-sort_members [] h = tt
  All-sort_members (m ∷ ms) h = All-insert_member m (sort_members ms) h.0 (All-sort_members ms h.1)

module _ (j : ℕ) where
  abbrev pub found : List Member → GuildCacheContainer → Option Member
  found ms container = lookup j (put_members ms container).members

  found_ext :
      (ms : List Member) (c d : GuildCacheContainer)
      → lookup j c.members ≡ lookup j d.members
      → found ms c ≡ found ms d
  unfolding put_members
  found_ext [] c d h = h
  found_ext (m ∷ ms) c d h =
      found_ext ms (put_member m.user_id (without_user m) c)
        (put_member m.user_id (without_user m) d)
        (ground (
          arith,
          h,
          lookup-insert j m.user_id (without_user m) c.members,
          lookup-insert j m.user_id (without_user m) d.members,
        ))

  found-insert_member :
      (m : Member) (ms : List Member) (c : GuildCacheContainer)
      → All (λ n. key m ≢ key n) ms
      → found (insert_member m ms) c ≡ found (m ∷ ms) c
  unfolding put_members insert_member
  found-insert_member m [] c h = refl
  found-insert_member m (n ∷ ms) c h =
      let with_m : GuildCacheContainer = put_member m.user_id (without_user m) c in
      let with_n : GuildCacheContainer = put_member n.user_id (without_user n) c in
      ground (
        arith,
        found-insert_member m ms with_n h.1,
        found_ext ms (put_member m.user_id (without_user m) with_n)
            (put_member n.user_id (without_user n) with_m)
            (ground (
              arith,
              h.0,
              lookup-insert j m.user_id (without_user m) with_n.members,
              lookup-insert j n.user_id (without_user n) with_m.members,
              lookup-insert j m.user_id (without_user m) c.members,
              lookup-insert j n.user_id (without_user n) c.members,
            )),
      )

  -- The order in which a chunk is stored does not matter.
  pub found-sort_members :
      (ms : List Member) (c : GuildCacheContainer)
      → Distinct key ms
      → found (sort_members ms) c ≡ found ms c
  unfolding put_members sort_members
  found-sort_members [] c h = refl
  found-sort_members (m ∷ ms) c h =
      found-insert_member m (sort_members ms) c (All-sort_members (λ n. key m ≢ key n) ms h.0)
      ∙ found-sort_members ms (put_member m.user_id (without_user m) c) h.1

  pub found_other :
      (ms : List Member) (c : GuildCacheContainer)
      → All (λ n. j ≢ key n) ms
      → found ms c ≡ lookup j c.members
  unfolding put_members
  found_other [] c h = refl
  found_other (m ∷ ms) c h = ground (
    arith,
    h.0,
    found_other ms (put_member m.user_id (without_user m) c) h.1,
    lookup-insert j m.user_id (without_user m) c.members,
  )
