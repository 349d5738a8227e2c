-- ===== src/Cache/RoundTrip.antt =====
-- A guild that is created in the basic cache (cache.go), read back.
use disgord.Base.{
  ℕ, ◌≡◌, refl, ◌≢◌, Option, none, some, List, [], ◌∷◌, map, arith, ◌==◌, is_some, if◌then◌else◌,
  All,
}
use disgord.Base.Dict.{Dict, lookup, insert, lookup-insert}
use disgord.Structs.Data.{User, Member, Channel}
use disgord.Cache.State.{save_channel, save_users}
use disgord.Cache.Members.{without_user}
use disgord.Cache.Guilds.{save_channels, members_map}
use disgord.Cache.Reads.{retrieve_channels, construct_member_list, with_user}

-- No two entries have the same key.
abbrev pub Distinct : {A : Type 0} → (A → ℕ) → List A → Type 0
Distinct key [] = Unit
Distinct key (a ∷ xs) = All (λ b. key a ≢ key b) xs × Distinct key xs

abbrev pub or_known : {A : Type 0} → Option A → A → A
or_known none a = a
or_known (some known) a = known

lookup-save_channel :
    (j : ℕ) (channel : Channel) (store : Dict Channel)
    → lookup j (save_channel channel store)
      ≡ (if j == channel.id then some (or_known (lookup j store) channel) else lookup j store)
unfolding save_channel
lookup-save_channel j channel store = ground (arith, lookup-insert j channel.id channel store)

lookup-save_channels_other :
    (j : ℕ) (channels : List Channel) (store : Dict Channel)
    → All (λ (c : Channel). j ≢ c.id) channels
    → lookup j (save_channels channels store) ≡ lookup j store
unfolding save_channels
lookup-save_channels_other j [] store h = refl
lookup-save_channels_other j (c ∷ cs) store h = ground (
  arith,
  h.0,
  lookup-save_channels_other j cs (save_channel c store) h.1,
  lookup-save_channel j c store,
)

abbrev pub KnownAs : (ℕ → Option Channel) → Dict Channel → List Channel → Type 0
KnownAs known store = All (λ (c : Channel). lookup c.id store ≡ known c.id)

KnownAs-save_channel :
    (known : ℕ → Option Channel) (c : Channel) (store : Dict Channel) (cs : List Channel)
    → All (λ (d : Channel). c.id ≢ d.id) cs
    → KnownAs known store cs
    → KnownAs known (save_channel c store) cs
KnownAs-save_channel known c store [] h k = tt
KnownAs-save_channel known c store (d ∷ cs) h k = (
  ground (arith, h.0, k.0, lookup-save_channel d.id c store),
  KnownAs-save_channel known c store cs h.1 k.1,
)

-- The channels of a guild are those that are read back, but for what was known.
pub retrieve-save_channels :
    (known : ℕ → Option Channel) (channels : List Channel) (store : Dict Channel)
    → Distinct (λ (c : Channel). c.id) channels
    → KnownAs known store channels
    → retrieve_channels (map (λ (c : Channel). c.id) channels) (save_channels channels store)
      ≡ map (λ (c : Channel). or_known (known c.id) c) channels
unfolding retrieve_channels save_channels
retrieve-save_channels known [] store h k = refl
retrieve-save_channels known (c ∷ cs) store h k =
    let here : lookup c.id (save_channels cs (save_channel c store))
        ≡ some (or_known (known c.id) c) =
      ground (
        arith,
        k.0,
        lookup-save_channels_other c.id cs (save_channel c store) h.0,
        lookup-save_channel c.id c store,
      ) in
    let rest =
      retrieve-save_channels known cs (save_channel c store) h.1
        (KnownAs-save_channel known c store cs h.0 k.1) in
    ground (arith, here, rest)

-- the users of a guild's members, which are there
abbrev pub HaveUsers : List Member → Type 0
HaveUsers = All (λ (m : Member). (u : User) × (m.user ≡ some u) × (m.user_id ≡ u.id))

-- the member with the user that the cache has for it
abbrev pub refreshed : Dict User → Member → Member
refreshed users m = elim m.user [
  | none ↦ m
  | some u ↦ record m { user = some (or_known (lookup m.user_id users) u) }
]

-- `save_users` where every user is there
abbrev pub store_user : Member → Dict User → Dict User
store_user m store = elim m.user [
  | none ↦ store
  | some u ↦ if is_some (lookup u.id store) then store else insert u.id u store
]

unfoldable pub store_users : List Member → Dict User → Dict User
store_users [] store = store
store_users (m ∷ ms) store = store_users ms (store_user m store)

pub save_users-store_users :
    (ms : List Member) (store : Dict User)
    → HaveUsers ms
    → save_users (map (λ (m : Member). m.user) ms) store ≡ some (store_users ms store)
unfolding save_users store_users
save_users-store_users [] store h = refl
save_users-store_users (m ∷ ms) store h =
    ground (arith, h.0.1, save_users-store_users ms (store_user m store) h.1)

pub lookup-store_user :
    (j : ℕ) (m : Member) (u : User) (store : Dict User)
    → m.user ≡ some u
    → m.user_id ≡ u.id
    → lookup j (store_user m store)
      ≡ (if j == m.user_id then some (or_known (lookup j store) u) else lookup j store)
lookup-store_user j m u store e i = ground (arith, lookup-insert j u.id u store)

pub lookup-store_users_other :
    (j : ℕ) (ms : List Member) (store : Dict User)
    → HaveUsers ms
    → All (λ (m : Member). j ≢ m.user_id) ms
    → lookup j (store_users ms store) ≡ lookup j store
unfolding store_users
lookup-store_users_other j [] store hu h = refl
lookup-store_users_other j (m ∷ ms) store hu h = ground (
  arith,
  h.0,
  lookup-store_users_other j ms (store_user m store) hu.1 h.1,
  lookup-store_user j m hu.0.0 store hu.0.1 hu.0.2,
)

lookup-members_map_other :
    (j : ℕ) (ms : List Member) (store : Dict Member)
    → All (λ (m : Member). j ≢ m.user_id) ms
    → lookup j (members_map ms store) ≡ lookup j store
unfolding members_map
lookup-members_map_other j [] store h = refl
lookup-members_map_other j (m ∷ ms) store h = ground (
  arith,
  h.0,
  lookup-members_map_other j ms (insert m.user_id (without_user m) store) h.1,
  lookup-insert j m.user_id (without_user m) store,
)

pub construct-members_map :
    (ms : List Member) (store : Dict Member)
    → Distinct (λ (m : Member). m.user_id) ms
    → construct_member_list (map (λ (m : Member). m.user_id) ms) (members_map ms store)
      ≡ map without_user ms
unfolding construct_member_list members_map
construct-members_map [] store h = refl
construct-members_map (m ∷ ms) store h = ground (
  arith,
  h.0,
  lookup-members_map_other m.user_id ms (insert m.user_id (without_user m) store) h.0,
  lookup-insert m.user_id m.user_id (without_user m) store,
  construct-members_map ms (insert m.user_id (without_user m) store) h.1,
)

abbrev pub SameUsers : Dict User → Dict User → List Member → Type 0
SameUsers users store = All (λ (m : Member). lookup m.user_id store ≡ lookup m.user_id users)

pub SameUsers-store_user :
    (users : Dict User) (m : Member) (u : User) (store : Dict User) (ms : List Member)
    → m.user ≡ some u
    → m.user_id ≡ u.id
    → All (λ (n : Member). m.user_id ≢ n.user_id) ms
    → SameUsers users store ms
    → SameUsers users (store_user m store) ms
SameUsers-store_user users m u store [] e i h k = tt
SameUsers-store_user users m u store (n ∷ ms) e i h k = (
  ground (arith, h.0, k.0, lookup-store_user n.user_id m u store e i),
  SameUsers-store_user users m u store ms e i h.1 k.1,
)

-- The members come back with their users, but for those that were known.
pub with_user-store_users :
    (users : Dict User) (ms : List Member) (store : Dict User)
    → HaveUsers ms
    → Distinct (λ (m : Member). m.user_id) ms
    → SameUsers users store ms
    → map (with_user (store_users ms store)) (map without_user ms) ≡ map (refreshed users) ms
unfolding with_user store_users
with_user-store_users users [] store hu h k = refl
with_user-store_users users (m ∷ ms) store hu h k = ground (
  arith,
  h.0,
  hu.0,
  k.0,
  hu.0.1,
  hu.0.2,
  lookup-store_users_other m.user_id ms (store_user m store) hu.1 h.0,
  lookup-store_user m.user_id m hu.0.0 store hu.0.1 hu.0.2,
  with_user-store_users users ms (store_user m store) hu.1 h.1
      (SameUsers-store_user users m hu.0.0 store ms hu.0.1 hu.0.2 h.0 k.1),
)
