-- ===== src/Structs/Collected.antt =====
-- The loop of Member.GetPermissions (guild.go), which stops early, against one that does not, and
-- the masks of Channel.GetPermissions (channel.go).
use Prim.Native.Nat.{bit_or}
use disgord.Base.{
  ℕ, ◌+◌, ◌-◌, ◌≤◌, ◌<◌, ◌≡◌, refl, sym, ap, subst, ◌∙◌, ◌≢◌, inl, inr, some, List, [], ◌∷◌, arith,
  ◌==◌, if◌then◌else◌, length, All, Bool-cases,
}
use disgord.Structs.Data.{Role, Member}
use disgord.Structs.Roles.{DistinctRoles}
use disgord.Structs.Permissions.{
  has_role, collect_permissions, member_permissions, mask_of, uint64_mod,
}

-- The permissions of all the roles of the guild that the member has.
unfoldable pub union : List ℕ → ℕ → List Role → ℕ
union mine permissions [] = permissions
union mine permissions (r ∷ roles) =
    union mine (if has_role r.id mine then bit_or permissions r.permissions else permissions) roles

without : ℕ → List ℕ → List ℕ
without id [] = []
without id (r ∷ roles) = if id == r then without id roles else r ∷ without id roles

has_role-without :
    (j id : ℕ) (roles : List ℕ) → j ≢ id → has_role j (without id roles) ≡ has_role j roles
unfolding has_role without
has_role-without j id [] h = refl
has_role-without j id (r ∷ roles) h = ground (arith, h, has_role-without j id roles h)

length-without :
    (id : ℕ) (roles : List ℕ)
    → length (without id roles) + (if has_role id roles then 1 else 0) ≤ length roles
unfolding has_role without
length-without id [] = omega arith
length-without id (r ∷ roles) = ground (arith, length-without id roles)

-- The two lists have the same of these roles.
abbrev Agree : List ℕ → List ℕ → List Role → Type 0
Agree mine rest = All (λ (r : Role). has_role r.id mine ≡ has_role r.id rest)

Agree-without :
    (mine rest : List ℕ) (id : ℕ) (roles : List Role)
    → All (λ (r : Role). id ≢ r.id) roles
    → Agree mine rest roles
    → Agree mine (without id rest) roles
Agree-without mine rest id [] h k = tt
Agree-without mine rest id (r ∷ roles) h k = (
  k.0 ∙ sym (has_role-without r.id id rest (λ e. h.0 (sym e))),
  Agree-without mine rest id roles h.1 k.1,
)

union_nothing :
    (mine : List ℕ) (permissions : ℕ) (roles : List Role)
    → Agree mine [] roles
    → union mine permissions roles ≡ permissions
unfolding union has_role
union_nothing mine permissions [] k = refl
union_nothing mine permissions (r ∷ roles) k =
    ground (arith, k.0, union_nothing mine permissions roles k.1)

nothing-left : (rest : List ℕ) → length rest ≤ 0 → rest ≡ []
nothing-left [] h = refl
nothing-left (r ∷ rest) h = absurd (omega (arith, h))

collect-union :
    (mine rest : List ℕ) (n permissions : ℕ) (roles : List Role)
    → DistinctRoles roles
    → Agree mine rest roles
    → length rest ≤ n
    → collect_permissions mine n permissions roles ≡ union mine permissions roles
unfolding collect_permissions union
collect-union mine rest n permissions [] d k h = refl
collect-union mine rest n permissions (r ∷ roles) d k h = elim (Bool-cases (has_role r.id mine)) [
  | inl hit ↦
      let rest' : List ℕ = without r.id rest in
      let k' : Agree mine rest' roles = Agree-without mine rest r.id roles d.0 k.1 in
      let fewer : length rest' ≤ n - 1 = ground (arith, hit, k.0, length-without r.id rest, h) in
      let stop : n - 1 ≡ 0
          → union mine (bit_or permissions r.permissions) roles ≡ bit_or permissions r.permissions =
        λ z.
          union_nothing mine (bit_or permissions r.permissions) roles
            (subst (λ l. Agree mine l roles) (nothing-left rest' (omega arith)) k') in
      ground (
        arith,
        hit,
        stop,
        collect-union mine rest' (n - 1) (bit_or permissions r.permissions) roles d.1 k' fewer,
      )
  | inr miss ↦
      let stop : n ≡ 0 → union mine permissions roles ≡ permissions = λ z.
        union_nothing mine permissions roles
          (subst (λ l. Agree mine l roles) (nothing-left rest (omega arith)) k.1) in
      ground (arith, miss, stop, collect-union mine rest n permissions roles d.1 k.1 h)
]

Agree-refl : (mine : List ℕ) (roles : List Role) → Agree mine mine roles
Agree-refl mine [] = tt
Agree-refl mine (r ∷ roles) = (refl, Agree-refl mine roles)

-- In a guild whose roles have distinct ids, a member has the permissions of all its roles: the early
-- stop loses none.
pub member_permissions_lem :
    (m : Member) (roles : List Role)
    → DistinctRoles roles
    → member_permissions m (some roles) ≡ some (union m.roles 0 roles)
unfolding member_permissions
member_permissions_lem m roles d = ap some (
    collect-union m.roles m.roles (length m.roles) 0 roles d (Agree-refl m.roles roles)
      (omega arith))

-- `-deny - 1` is the complement of a uint64.
pub mask_of_lem : (deny : ℕ) → deny < uint64_mod → deny + mask_of deny ≡ uint64_mod - 1
unfolding mask_of
mask_of_lem deny h = omega arith
