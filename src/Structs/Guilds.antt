-- ===== src/Structs/Guilds.antt =====
-- The methods of Guild that look into its slices and change them (guild.go). `none` is a panic where
-- a result says so, an error otherwise.
use disgord.Base.{
  ℕ, suc, ◌-◌, Bool, true, false, not, ◌||◌, Option, none, some, List, [], ◌∷◌, ◌++◌, String,
  str_eq, ltb, ◌==◌, if◌then◌else◌, length, get_elem?, set, take, drop, ◌>>=◌,
}
use disgord.Structs.Data.{Member, Channel, Role, Emoji, Guild}

-- the loops that stop at the first match
module _ {ℓ} {A : Type ℓ} (test : A → Bool) where
  unfoldable pub find_first : List A → Option A
  find_first [] = none
  find_first (a ∷ xs) = if test a then some a else find_first xs

  unfoldable pub index_first : List A → Option ℕ
  index_first [] = none
  index_first (a ∷ xs) = if test a then some 0 else (do i ← index_first xs; some (suc i))

  -- the loop without a `break`, which ends at the last match
  unfoldable pub index_last : List A → Option ℕ
  index_last [] = none
  index_last (a ∷ xs) = elim (index_last xs) [
    | some i ↦ some (suc i)
    | none ↦ if test a then some 0 else none
  ]

  unfoldable pub matches : List A → List A
  matches [] = []
  matches (a ∷ xs) = if test a then a ∷ matches xs else matches xs

  unfoldable pub any_match : List A → Bool
  any_match [] = false
  any_match (a ∷ xs) = test a || any_match xs

abbrev pub role_is : ℕ → Role → Bool
role_is id r = r.id == id

abbrev pub channel_is : ℕ → Channel → Bool
channel_is id c = c.id == id

abbrev pub member_is : ℕ → Member → Bool
member_is id m = m.user_id == id

unfoldable pub find_role : Guild → ℕ → Option Role
find_role g id = find_first (role_is id) g.roles

unfoldable pub find_member : Guild → ℕ → Option Member
find_member g id = find_first (member_is id) g.members

unfoldable pub find_channel : Guild → ℕ → Option Channel
find_channel g id = find_first (channel_is id) g.channels

-- The result with an error is the last emoji, since the loop's variable is returned.
unfoldable pub emoji_from : ℕ → Option Emoji → List Emoji → Option Emoji × Bool
emoji_from id emoji [] = (emoji, false)
emoji_from id emoji (e ∷ es) = if e.id == id then (some e, true) else emoji_from id (some e) es

unfoldable pub find_emoji : Guild → ℕ → Option Emoji × Bool
find_emoji g id = emoji_from id none g.emojis

unfoldable pub role_by_name : Guild → String → Option (List Role)
role_by_name g name =
    let roles : List Role = matches (λ r. str_eq r.name name) g.roles in
    if length roles == 0 then none else some roles

-- `none`: a member without that nickname has no user
unfoldable pub named : String → Member → Option Bool
named name m =
    if str_eq m.nick name then some true else (do user ← m.user; some (str_eq user.username name))

unfoldable pub members_by_name : String → List Member → Option (List Member)
members_by_name name [] = some []
members_by_name name (m ∷ ms) = do
  hit ← named name m
  rest ← members_by_name name ms
  some (if hit then m ∷ rest else rest)

-- `none`: the last element is taken from an empty slice
unfoldable pub move_last : ℕ → List Role → Option (List Role)
move_last index roles = do
  last ← get_elem? roles (length roles - 1)
  some (take (length roles - 1) (set roles index last))

unfoldable pub delete_role : ℕ → List Role → List Role
delete_role id roles = elim (index_first (role_is id) roles) [
  | none ↦ roles
  | some index ↦ elim (move_last index roles) [ none ↦ roles | some roles' ↦ roles' ]
]

unfoldable pub delete_role_by_id : Guild → ℕ → Guild
delete_role_by_id g id = record g { roles = delete_role id g.roles }

unfoldable pub add_role : Guild → Role → Guild
add_role g role = record g { roles = g.roles ++ (record role { guild_id = g.id } ∷ []) }

-- the copy down by one from the index, and the cut of the last entry
unfoldable pub remove_at {ℓ} : {A : Type ℓ} → ℕ → List A → List A
remove_at index xs = take index xs ++ drop (suc index) xs

unfoldable pub delete_channel_by_id : Guild → ℕ → Option Guild
delete_channel_by_id g id = elim (index_last (channel_is id) g.channels) [
  | none ↦ none
  | some index ↦ some (record g { channels = remove_at index g.channels })
]

unfoldable pub has_member : Guild → ℕ → Bool
has_member g id = any_match (member_is id) g.members

-- The members that are added, and the argument, whose array is used for them.
unfoldable pub add_members : Guild → List Member → Guild × List Member
add_members g members =
    let to_add : List Member = matches (λ m. not (has_member g m.user_id)) members in
    (record g { members = g.members ++ to_add }, to_add ++ drop (length to_add) members)

unfoldable pub add_member_to : Guild → Member → Guild
add_member_to g m =
    if has_member g m.user_id then g else record g { members = g.members ++ (m ∷ []) }

-- the loop of GetMemberWithHighestSnowflake, with the id of the highest so far; `none` is a panic
unfoldable pub highest_member : Member → ℕ → List Member → Option Member
highest_member highest id [] = some highest
highest_member highest id (m ∷ ms) = do
  user ← m.user
  if ltb id user.id then highest_member m user.id ms else highest_member highest id ms

unfoldable pub get_member_with_highest_snowflake : Guild → Option (Option Member)
get_member_with_highest_snowflake g = elim g.members [
  | [] ↦ some none
  | m ∷ ms ↦ do user ← m.user; highest ← highest_member m user.id ms; some (some highest)
]
