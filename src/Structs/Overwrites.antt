-- ===== src/Structs/Overwrites.antt =====
-- What Channel.GetPermissions (channel.go) decides for each permission.
use Prim.Native.Nat.{bit_or, min, max}
use disgord.Base.{ℕ, ◌-◌, ◌<◌, ◌≡◌, refl, ap, ◌∙◌, some, List, [], ◌∷◌, arith, if◌then◌else◌, All}
use disgord.Structs.Data.{Role, Member, Channel, PermissionOverwrite}
use disgord.Base.Bits.{bit, bit-lt, bit-bit_and, bit-bit_or, bit_opposite, pow2_64}
use disgord.Structs.Roles.{DistinctRoles}
use disgord.Structs.Permissions.{
  has_role, concerns, mask_of, apply_overwrite, apply_overwrites, channel_permissions, uint64_mod,
}
use disgord.Structs.Collected.{union, member_permissions_lem, mask_of_lem}

module _ (i : ℕ) where
  -- Whether one of the member's roles grants the permission, given what was granted before.
  pub granted : List ℕ → ℕ → List Role → ℕ
  granted mine before [] = before
  granted mine before (r ∷ roles) =
      granted mine (if has_role r.id mine then max before (bit i r.permissions) else before) roles

  -- What the overwrites of the member leave of the permission: each one in its order allows it, and
  -- denies it after that.
  pub decided : Member → ℕ → List PermissionOverwrite → ℕ
  decided m before [] = before
  decided m before (o ∷ overwrites) =
      decided m
        (if concerns m o then min (max before (bit i o.allow)) (1 - bit i o.deny) else before)
        overwrites

  bit-union :
      (mine : List ℕ) (permissions : ℕ) (roles : List Role)
      → bit i (union mine permissions roles) ≡ granted mine (bit i permissions) roles
  unfolding union granted
  bit-union mine permissions [] = refl
  bit-union mine permissions (r ∷ roles) = ground (
    arith,
    bit-bit_or i permissions r.permissions,
    bit-union mine (bit_or permissions r.permissions) roles,
    bit-union mine permissions roles,
  )

  bit-mask_of : (deny : ℕ) → deny < uint64_mod → i < 64 → bit i (mask_of deny) ≡ 1 - bit i deny
  bit-mask_of deny h k =
      let opposite =
        bit_opposite 64 i deny (mask_of deny) (omega (arith, mask_of_lem deny h, pow2_64)) k in
      omega (arith, opposite, bit-lt i deny)

  bit-apply_overwrite :
      (permissions : ℕ) (o : PermissionOverwrite)
      → o.deny < uint64_mod
      → i < 64
      → bit i (apply_overwrite permissions o)
        ≡ min (max (bit i permissions) (bit i o.allow)) (1 - bit i o.deny)
  unfolding apply_overwrite
  bit-apply_overwrite permissions o h k =
      bit-bit_and i (bit_or permissions o.allow) (mask_of o.deny)
      ∙ ap (λ v. min v (bit i (mask_of o.deny))) (bit-bit_or i permissions o.allow)
      ∙ ap (min (max (bit i permissions) (bit i o.allow))) (bit-mask_of o.deny h k)

  bit-apply_overwrites :
      (m : Member) (permissions : ℕ) (os : List PermissionOverwrite)
      → All (λ (o : PermissionOverwrite). o.deny < uint64_mod) os
      → i < 64
      → bit i (apply_overwrites m permissions os) ≡ decided m (bit i permissions) os
  unfolding apply_overwrites decided
  bit-apply_overwrites m permissions [] h k = refl
  bit-apply_overwrites m permissions (o ∷ os) h k = ground (
    arith,
    bit-apply_overwrite permissions o h.0 k,
    bit-apply_overwrites m (apply_overwrite permissions o) os h.1 k,
    bit-apply_overwrites m permissions os h.1 k,
  )

  -- Each of the 64 permissions that GetPermissions gives for a channel is decided by itself: a role of
  -- the member grants it, and then each overwrite for the member or one of its roles, in the channel's
  -- order, allows it and after that denies it.
  pub channel_permissions_lem :
      (c : Channel) (m : Member) (roles : List Role)
      → DistinctRoles roles
      → All (λ (o : PermissionOverwrite). o.deny < uint64_mod) c.permission_overwrites
      → i < 64
      → (permissions : ℕ) × (channel_permissions c m (some roles) ≡ some permissions)
        × (bit i permissions ≡ decided m (granted m.roles (bit i 0) roles) c.permission_overwrites)
  unfolding channel_permissions
  channel_permissions_lem c m roles d h k = (
    apply_overwrites m (union m.roles 0 roles) c.permission_overwrites,
    ground (arith, member_permissions_lem m roles d),
    bit-apply_overwrites m (union m.roles 0 roles) c.permission_overwrites h k
        ∙ ap (λ v. decided m v c.permission_overwrites) (bit-union m.roles 0 roles),
  )
