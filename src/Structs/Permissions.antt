-- ===== src/Structs/Permissions.antt =====
-- Permissions of members and channels (guild.go, channel.go): bits of a uint64. What the session
-- answers for the roles of the guild is a parameter.
use Prim.Native.Nat.{bit_and, bit_or}
use disgord.Base.{
  ℕ, ◌+◌, ◌-◌, ◌%◌, ◌^◌, Bool, false, ◌||◌, Option, none, some, List, [], ◌∷◌, ◌==◌, if◌then◌else◌,
  length,
}
use disgord.Structs.Data.{
  Role, Member, Channel, PermissionOverwrite, permission_overwrite_role,
  permission_overwrite_member,
}

abbrev pub uint64_mod : ℕ
uint64_mod = 2 ^ 64

-- `PermissionBit.Contains`
unfoldable pub contains : ℕ → ℕ → Bool
contains b bits = bit_and b bits == bits

unfoldable pub has_role : ℕ → List ℕ → Bool
has_role id [] = false
has_role id (r ∷ roles) = id == r || has_role id roles

-- the loop of Member.GetPermissions, which stops when no role of the member is left
unfoldable pub collect_permissions : List ℕ → ℕ → ℕ → List Role → ℕ
collect_permissions mine unprocessed permissions [] = permissions
collect_permissions mine unprocessed permissions (r ∷ roles) =
    let left : ℕ = if has_role r.id mine then unprocessed - 1 else unprocessed in
    let permissions' : ℕ =
      if has_role r.id mine then bit_or permissions r.permissions else permissions in
    let rest : ℕ = collect_permissions mine left permissions' roles in
    if left == 0 then permissions' else rest

-- `Member.GetPermissions`, by the roles of the guild or the error
unfoldable pub member_permissions : Member → Option (List Role) → Option ℕ
member_permissions m none = none
member_permissions m (some roles) = some (collect_permissions m.roles (length m.roles) 0 roles)

-- `-deny - 1` on a uint64
unfoldable pub mask_of : ℕ → ℕ
mask_of deny = ((uint64_mod - deny) % uint64_mod + uint64_mod - 1) % uint64_mod

-- `apply`
unfoldable pub apply_overwrite : ℕ → PermissionOverwrite → ℕ
apply_overwrite permissions o = bit_and (bit_or permissions o.allow) (mask_of o.deny)

-- whether an overwrite is for the member
unfoldable pub concerns : Member → PermissionOverwrite → Bool
concerns m o = elim o.type [
  | permission_overwrite_member ↦ o.id == m.user_id
  | permission_overwrite_role ↦ has_role o.id m.roles
]

unfoldable pub apply_overwrites : Member → ℕ → List PermissionOverwrite → ℕ
apply_overwrites m permissions [] = permissions
apply_overwrites m permissions (o ∷ overwrites) =
    apply_overwrites m (if concerns m o then apply_overwrite permissions o else permissions)
      overwrites

-- `Channel.GetPermissions`
unfoldable pub channel_permissions : Channel → Member → Option (List Role) → Option ℕ
channel_permissions c m roles = elim (member_permissions m roles) [
  | none ↦ none
  | some permissions ↦ some (apply_overwrites m permissions c.permission_overwrites)
]
