-- ===== src/Structs/RoleLaws.antt =====
-- What DeleteRoleByID (guild.go) does, read by a lookup.
use disgord.Base.{
  ℕ, ◌≡◌, refl, sym, subst, ◌≢◌, none, List, [], ◌∷◌, ◌++◌, arith, ◌==◌, if◌then◌else◌, All,
  ℕ_discrete,
}
use disgord.Structs.Data.{Role}
use disgord.Structs.Guilds.{find_first, delete_role, index_first}
use disgord.Structs.Roles.{
  DistinctRoles, role_at, ends, delete_role_hit, delete_role_only, delete_role_miss,
}

pub role_at_absent :
    (id : ℕ) (rs : List Role) → All (λ (s : Role). id ≢ s.id) rs → role_at id rs ≡ none
unfolding find_first
role_at_absent id [] h = refl
role_at_absent id (r ∷ rs) h = ground (arith, h.0, role_at_absent id rs h.1)

pub role_at-none :
    (id : ℕ) (rs : List Role) → role_at id rs ≡ none → All (λ (s : Role). id ≢ s.id) rs
unfolding find_first
role_at-none id [] h = tt
role_at-none id (r ∷ rs) h = elim (ℕ_discrete r.id id) [
  | yes p ↦ absurd (ground (arith, h, p))
  | no p ↦ (ground (arith, p), role_at-none id rs (ground (arith, h, p)))
]

role_at_rotate :
    (j : ℕ) (l : Role) (ys : List Role)
    → All (λ (s : Role). l.id ≢ s.id) ys
    → role_at j (l ∷ ys) ≡ role_at j (ys ++ (l ∷ []))
unfolding find_first
role_at_rotate j l [] h = refl
role_at_rotate j l (y ∷ ys) h = ground (arith, h.0, role_at_rotate j l ys h.1)

All-last : (P : Role → Type 0) (l : Role) (ys : List Role) → All P (ys ++ (l ∷ [])) → P l × All P ys
All-last P l [] h = (h.0, tt)
All-last P l (y ∷ ys) h = let r = All-last P l ys h.1 in (r.0, (h.0, r.1))

DistinctRoles-last :
    (l : Role) (ys : List Role) → DistinctRoles (ys ++ (l ∷ [])) → DistinctRoles (l ∷ ys)
DistinctRoles-last l [] h = (tt, tt)
DistinctRoles-last l (y ∷ ys) h =
    let r = DistinctRoles-last l ys h.1 in
    let s = All-last (λ (z : Role). y.id ≢ z.id) l ys h.0 in (((λ e. s.0 (sym e)), r.0), (s.1, r.1))

-- The lookup after a deletion, and that no id comes twice.
pub record IsDeleted (id : ℕ) (rs rs' : List Role) : Type 0 where
  pub lookups : (j : ℕ) → role_at j rs' ≡ (if j == id then none else role_at j rs)
  pub distinct : DistinctRoles rs'

IsDeleted-hit :
    (id : ℕ) (r s : Role) (rs : List Role)
    → r.id ≡ id
    → DistinctRoles (r ∷ s ∷ rs)
    → IsDeleted id (r ∷ s ∷ rs) (delete_role id (r ∷ s ∷ rs))
unfolding find_first
IsDeleted-hit id r s rs h d =
    let e = ends s rs in
    let d' : DistinctRoles (e.last ∷ e.start) =
      DistinctRoles-last e.last e.start (subst DistinctRoles e.whole d.1) in
    let moved : IsDeleted id (r ∷ s ∷ rs) (e.last ∷ e.start) = record {
      lookups = λ j. ground (
        arith,
        h,
        role_at_rotate j e.last e.start d'.0,
        subst (λ xs. role_at j xs ≡ role_at j (s ∷ rs)) e.whole refl,
        role_at_absent r.id (s ∷ rs) d.0,
      );
      distinct = d';
    } in
    subst (IsDeleted id (r ∷ s ∷ rs)) (sym (delete_role_hit id r s rs h)) moved

IsDeleted-only : (id : ℕ) (r : Role) → r.id ≡ id → IsDeleted id (r ∷ []) (delete_role id (r ∷ []))
unfolding find_first
IsDeleted-only id r h =
    let gone : IsDeleted id (r ∷ []) [] = record {
      lookups = λ j. ground (arith, h);
      distinct = tt;
    } in
    subst (IsDeleted id (r ∷ [])) (sym (delete_role_only id r h)) gone

IsDeleted-miss :
    (id : ℕ) (r : Role) (rs : List Role)
    → r.id ≢ id
    → DistinctRoles (r ∷ rs)
    → IsDeleted id rs (delete_role id rs)
    → IsDeleted id (r ∷ rs) (delete_role id (r ∷ rs))
unfolding find_first
IsDeleted-miss id r rs h d k =
    let kept : IsDeleted id (r ∷ rs) (r ∷ delete_role id rs) = record {
      lookups = λ j. ground (arith, h, k.lookups j);
      distinct = (
        role_at-none r.id (delete_role id rs)
            (ground (arith, h, k.lookups r.id, role_at_absent r.id rs d.0)),
        k.distinct,
      );
    } in
    subst (IsDeleted id (r ∷ rs)) (sym (delete_role_miss id r rs h)) kept

IsDeleted-first :
    (id : ℕ) (r : Role) (rs : List Role)
    → r.id ≡ id
    → DistinctRoles (r ∷ rs)
    → IsDeleted id (r ∷ rs) (delete_role id (r ∷ rs))
IsDeleted-first id r [] h d = IsDeleted-only id r h
IsDeleted-first id r (s ∷ rs) h d = IsDeleted-hit id r s rs h d

-- If no two roles have the same id, deleting a role loses that role and nothing else, although the
-- last role moves to its place.
pub delete_role_lem :
    (id : ℕ) (rs : List Role) → DistinctRoles rs → IsDeleted id rs (delete_role id rs)
unfolding find_first delete_role index_first
delete_role_lem id [] d = record { lookups = λ j. ground arith; distinct = tt }
delete_role_lem id (r ∷ rs) d = elim (ℕ_discrete r.id id) [
  | yes p ↦ IsDeleted-first id r rs p d
  | no p ↦ IsDeleted-miss id r rs p d (delete_role_lem id rs d.1)
]
