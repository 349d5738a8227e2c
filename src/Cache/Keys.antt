-- ===== src/Cache/Keys.antt =====
-- That the basic cache (cache.go) files everything under its own id: the parts.
use disgord.Base.{
  ℕ, Bool, true, false, ◌≡◌, refl, sym, subst, ◌≢◌, inl, inr, Option, none, some, List, [], ◌∷◌,
  arith, is_some, if◌then◌else◌, All, Option-cases, ℕ_discrete,
}
use disgord.Base.Dict.{Dict, Each, lookup, insert, erase, lookup-insert, lookup-erase, lookup-nil}
use disgord.Structs.Data.{User, Member, Channel}
use disgord.Cache.State.{BasicCache, GuildCacheContainer, save_channel, save_users}
use disgord.Cache.Members.{without_user, put_member, put_members, remove_member}
use disgord.Cache.Guilds.{save_channels, members_map}

abbrev pub IsUserOf : ℕ → User → Type 0
IsUserOf k u = u.id ≡ k

abbrev pub IsChannelOf : ℕ → Channel → Type 0
IsChannelOf k c = c.id ≡ k

abbrev pub IsMemberOf : ℕ → Member → Type 0
IsMemberOf k m = m.user_id ≡ k

pub record IsGuildOf (k : ℕ) (container : GuildCacheContainer) : Type 0 where
  pub guild : container.guild.id ≡ k
  pub members : Each IsMemberOf container.members

-- Every user, channel, guild and member is filed under its own id.
pub record IsKeyed (c : BasicCache) : Type 0 where
  pub users : Each IsUserOf c.users
  pub channels : Each IsChannelOf c.channels
  pub guilds : Each IsGuildOf c.guilds

module _ {V : Type 0} (P : ℕ → V → Type 0) where
  pub Each-insert : (k : ℕ) (v : V) (d : Dict V) → P k v → Each P d → Each P (insert k v d)
  Each-insert k v d p h j w e = elim (ℕ_discrete j k) [
    | yes q ↦
        let same : v ≡ w = ground (arith, q, e, lookup-insert j k v d) in
        subst (λ i. P i w) (sym q) (subst (P k) same p)
    | no q ↦ h j w (ground (arith, q, e, lookup-insert j k v d))
  ]

  pub Each-erase : (k : ℕ) (d : Dict V) → Each P d → Each P (erase k d)
  Each-erase k d h j w e = h j w (ground (arith, e, lookup-erase j k d))

  pub Each-nil : Each P []
  Each-nil j w e = absurd (ground (arith, e, lookup-nil {V = V} j))

  pub Each-if : (b : Bool) (d d' : Dict V) → Each P d → Each P d' → Each P (if b then d else d')
  Each-if true d d' h k = h
  Each-if false d d' h k = k

pub save_channel-Each :
    (channel : Channel) (d : Dict Channel)
    → Each IsChannelOf d
    → Each IsChannelOf (save_channel channel d)
unfolding save_channel
save_channel-Each channel d h =
    Each-if IsChannelOf (is_some (lookup channel.id d)) d (insert channel.id channel d) h
      (Each-insert IsChannelOf channel.id channel d refl h)

pub save_channels-Each :
    (channels : List Channel) (d : Dict Channel)
    → Each IsChannelOf d
    → Each IsChannelOf (save_channels channels d)
unfolding save_channels
save_channels-Each [] d h = h
save_channels-Each (c ∷ cs) d h = save_channels-Each cs (save_channel c d) (save_channel-Each c d h)

pub members_map-Each :
    (ms : List Member) (d : Dict Member) → Each IsMemberOf d → Each IsMemberOf (members_map ms d)
unfolding members_map
members_map-Each [] d h = h
members_map-Each (m ∷ ms) d h =
    members_map-Each ms (insert m.user_id (without_user m) d)
      (Each-insert IsMemberOf m.user_id (without_user m) d refl h)

-- the users of a list that has no nil
abbrev pub HasNoNil : List Member → Type 0
HasNoNil = All (λ (m : Member). m.user ≢ none)

abbrev pub SavesUsers : List (Option User) → Dict User → Type 0
SavesUsers us d = (d' : Dict User) × (save_users us d ≡ some d') × Each IsUserOf d'

pub save_users-SavesUsers :
    (us : List (Option User)) (d : Dict User)
    → All (λ u. u ≢ none) us
    → Each IsUserOf d
    → SavesUsers us d
unfolding save_users
save_users-SavesUsers [] d n h = (d, refl, h)
save_users-SavesUsers (none ∷ us) d n h = absurd (n.0 refl)
save_users-SavesUsers (some u ∷ us) d n h =
    save_users-SavesUsers us (if is_some (lookup u.id d) then d else insert u.id u d) n.1 (
      Each-if IsUserOf (is_some (lookup u.id d)) d (insert u.id u d) h
        (Each-insert IsUserOf u.id u d refl h))

pub put_members-IsGuildOf :
    (k : ℕ) (ms : List Member) (c : GuildCacheContainer)
    → IsGuildOf k c
    → IsGuildOf k (put_members ms c)
unfolding put_members
put_members-IsGuildOf k [] c h = h
put_members-IsGuildOf k (m ∷ ms) c h =
    put_members-IsGuildOf k ms (put_member m.user_id (without_user m) c) (record {
      guild = h.guild;
      members = Each-insert IsMemberOf m.user_id (without_user m) c.members refl h.members;
    })

pub remove_member-IsGuildOf :
    (k id : ℕ) (c : GuildCacheContainer) → IsGuildOf k c → IsGuildOf k (remove_member id c)
unfolding remove_member
remove_member-IsGuildOf k id c h = elim (Option-cases (lookup id c.members)) [
  | inl absent ↦
      rw absent (record { guild = h.guild; members = Each-erase IsMemberOf id c.members h.members })
  | inr (m, e) ↦
      rw e (record { guild = h.guild; members = Each-erase IsMemberOf id c.members h.members })
]
