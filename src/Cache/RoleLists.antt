-- ===== src/Cache/RoleLists.antt =====
-- The roles of a guild in the basic cache (cache.go) after an event, against a function from
-- ids to roles.
use disgord.Base.{
  ℕ, ◌≡◌, refl, sym, subst, ◌≢◌, Option, none, some, List, [], ◌∷◌, arith, ◌==◌, if◌then◌else◌, All,
  ℕ_discrete,
}
use disgord.Structs.Data.{Role}
use disgord.Structs.Guilds.{find_first, delete_role}
use disgord.Structs.Roles.{DistinctRoles, role_at}
use disgord.Structs.RoleLaws.{role_at_absent, role_at-none, delete_role_lem}
use disgord.Cache.State.{Json}
use disgord.Cache.Roles.{put_role, update_role}

abbrev pub View : Type 0
View = ℕ → Option Role

abbrev pub at_id : ℕ → Option Role → View → View
at_id id o f j = if j == id then o else f j

-- The list has each id once, and reads as the function.
pub record Shows (f : View) (rs : List Role) : Type 0 where
  pub distinct : DistinctRoles rs
  pub reads : (j : ℕ) → role_at j rs ≡ f j

role_at-put_role :
    (j : ℕ) (role : Role) (rs : List Role)
    → role_at j (put_role role rs) ≡ (if j == role.id then some role else role_at j rs)
unfolding find_first put_role
role_at-put_role j role [] = ground arith
role_at-put_role j role (r ∷ rs) = ground (arith, role_at-put_role j role rs)

put_role-DistinctRoles :
    (role : Role) (rs : List Role) → DistinctRoles rs → DistinctRoles (put_role role rs)
unfolding find_first put_role
put_role-DistinctRoles role [] d = (tt, tt)
put_role-DistinctRoles role (r ∷ rs) d = elim (ℕ_discrete role.id r.id) [
  | yes p ↦ ground (arith, p, d.1, subst (λ i. All (λ (s : Role). i ≢ s.id) rs) (sym p) d.0)
  | no p ↦ ground (
    arith,
    p,
    put_role-DistinctRoles role rs d.1,
    role_at-none r.id (put_role role rs)
        (ground (arith, p, role_at-put_role r.id role rs, role_at_absent r.id rs d.0)),
  )
]

pub put_role-Shows :
    (f : View) (role : Role) (rs : List Role)
    → Shows f rs
    → Shows (at_id role.id (some role) f) (put_role role rs)
put_role-Shows f role rs h = record {
  distinct = put_role-DistinctRoles role rs h.distinct;
  reads = λ j. ground (arith, role_at-put_role j role rs, h.reads j);
}

pub delete_role-Shows :
    (f : View) (id : ℕ) (rs : List Role) → Shows f rs → Shows (at_id id none f) (delete_role id rs)
delete_role-Shows f id rs h =
    let d = delete_role_lem id rs h.distinct in
    record { distinct = d.distinct; reads = λ j. ground (arith, d.lookups j, h.reads j) }

module _ {D : Type 0} (json : Json D) where
  -- what an update leaves for the id of its role
  abbrev pub updated_role : D → Role → Option Role → Role
  updated_role raw role none = role
  updated_role raw role (some r) = (json.role raw r).0

  module _ (raw : D) (role : Role)
      (keeps : (r : Role) → r.id ≡ role.id → (json.role raw r).0.id ≡ role.id) where
    update_role_hit :
        (r : Role) (rs : List Role)
        → role.id ≡ r.id
        → (update_role json raw role (r ∷ rs)).0 ≡ (json.role raw r).0 ∷ rs
    unfolding update_role
    update_role_hit r rs h = ground (arith, h)

    update_role_miss :
        (r : Role) (rs : List Role)
        → role.id ≢ r.id
        → (update_role json raw role (r ∷ rs)).0 ≡ r ∷ (update_role json raw role rs).0
    unfolding update_role
    update_role_miss r rs h = ground (arith, h)

    updated_role-id : (rs : List Role) → (updated_role raw role (role_at role.id rs)).id ≡ role.id
    unfolding find_first
    updated_role-id [] = refl
    updated_role-id (r ∷ rs) = ground (arith, keeps r, updated_role-id rs)

    -- The update is a put of the role that it leaves.
    update_role-put_role :
        (rs : List Role)
        → (update_role json raw role rs).0
          ≡ put_role (updated_role raw role (role_at role.id rs)) rs
    unfolding update_role put_role find_first
    update_role-put_role [] = refl
    update_role-put_role (r ∷ rs) = elim (ℕ_discrete role.id r.id) [
      | yes p ↦ ground (arith, p, keeps r)
      | no p ↦ ground (arith, p, updated_role-id rs, update_role-put_role rs)
    ]

    pub update_role-Shows :
        (f : View) (rs : List Role)
        → Shows f rs
        → Shows
            (at_id role.id (some (updated_role raw role (f role.id))) f)
            (update_role json raw role rs).0
    update_role-Shows f rs h =
        let left : Role = updated_role raw role (role_at role.id rs) in
        subst
          (λ i.
            Shows (at_id i (some (updated_role raw role (f role.id))) f)
              (update_role json raw role rs).0)
          (updated_role-id rs)
          (subst
            (λ o.
              Shows (at_id left.id (some (updated_role raw role o)) f)
                (update_role json raw role rs).0)
            (h.reads role.id)
            (subst (Shows (at_id left.id (some left) f)) (sym (update_role-put_role rs))
              (put_role-Shows f left rs h)))
