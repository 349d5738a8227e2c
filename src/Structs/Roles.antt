-- ===== src/Structs/Roles.antt =====
-- DeleteRoleByID (guild.go) against a lookup by id.
use disgord.Base.{
  ℕ, suc, ◌-◌, ◌≡◌, refl, ap, ◌≢◌, inl, inr, Option, some, List, [], ◌∷◌, ◌++◌, arith, length,
  get_elem?, set, take, All, Option-cases, ◌>>=◌,
}
use disgord.Structs.Data.{Role}
use disgord.Structs.Guilds.{find_first, index_first, role_is, move_last, delete_role}

abbrev pub DistinctRoles : List Role → Type 0
DistinctRoles [] = Unit
DistinctRoles (r ∷ rs) = All (λ (s : Role). r.id ≢ s.id) rs × DistinctRoles rs

abbrev pub role_at : ℕ → List Role → Option Role
role_at id roles = find_first (role_is id) roles

-- A list that is not empty, as all but the last and the last.
pub record Ends (xs : List Role) : Type 0 where
  pub start : List Role
  pub last : Role
  pub whole : xs ≡ start ++ (last ∷ [])
  measured : length xs ≡ suc (length start)
  get_last : get_elem? xs (length start) ≡ some last
  take_start : take (length start) xs ≡ start

pub ends : (r : Role) (rs : List Role) → Ends (r ∷ rs)
ends r [] = record {
  start = [];
  last = r;
  whole = refl;
  measured = refl;
  get_last = refl;
  take_start = refl;
}
ends r (s ∷ rs) =
    let e = ends s rs in
    record {
      start = r ∷ e.start;
      last = e.last;
      whole = ap (◌∷◌ r) e.whole;
      measured = ap suc e.measured;
      get_last = e.get_last;
      take_start = ap (◌∷◌ r) e.take_start;
    }

-- The removal of an entry: the last one takes its place.
move_last_first :
    (r s : Role) (rs : List Role)
    → move_last 0 (r ∷ s ∷ rs) ≡ some ((ends s rs).last ∷ (ends s rs).start)
unfolding move_last
move_last_first r s rs =
    let e = ends s rs in
    let n : length (r ∷ s ∷ rs) - 1 ≡ suc (length e.start) = omega (arith, e.measured) in
    rw (n, e.get_last, e.take_start) refl

move_last_only : (r : Role) → move_last 0 (r ∷ []) ≡ some []
unfolding move_last
move_last_only r = refl

move_last_next :
    (i : ℕ) (r s : Role) (rs rest : List Role)
    → move_last i (s ∷ rs) ≡ some rest
    → move_last (suc i) (r ∷ s ∷ rs) ≡ some (r ∷ rest)
unfolding move_last
move_last_next i r s rs rest h =
    let n : length (r ∷ s ∷ rs) - 1 ≡ suc (length rs) = omega arith in
    let k : length (s ∷ rs) - 1 ≡ length rs = omega arith in
    let h' : (get_elem? (s ∷ rs) (length rs)
          >>= (λ last. some (take (length rs) (set (s ∷ rs) i last))))
        ≡ some rest =
      rw (← k) h in
    rw n (ground (arith, h'))

pub delete_role_hit :
    (id : ℕ) (r s : Role) (rs : List Role)
    → r.id ≡ id
    → delete_role id (r ∷ s ∷ rs) ≡ (ends s rs).last ∷ (ends s rs).start
unfolding delete_role index_first
delete_role_hit id r s rs h = ground (arith, h, move_last_first r s rs)

pub delete_role_only : (id : ℕ) (r : Role) → r.id ≡ id → delete_role id (r ∷ []) ≡ []
unfolding delete_role index_first
delete_role_only id r h = ground (arith, h, move_last_only r)

move_last_total :
    (id i : ℕ) (r : Role) (rs : List Role)
    → index_first (role_is id) (r ∷ rs) ≡ some i
    → (rest : List Role) × (move_last i (r ∷ rs) ≡ some rest)
unfolding move_last
move_last_total id i r rs h =
    let e = ends r rs in
    let n : length (r ∷ rs) - 1 ≡ length e.start = omega (arith, e.measured) in
    (take (length e.start) (set (r ∷ rs) i e.last), rw (n, e.get_last) refl)

pub delete_role_miss :
    (id : ℕ) (r : Role) (rs : List Role)
    → r.id ≢ id
    → delete_role id (r ∷ rs) ≡ r ∷ delete_role id rs
unfolding delete_role index_first
delete_role_miss id r [] h = ground arith
delete_role_miss id r (s ∷ rs) h = elim (Option-cases (index_first (role_is id) (s ∷ rs))) [
  | inl none_here ↦ ground (arith, none_here)
  | inr (i, e) ↦
      let rest = move_last_total id i s rs e in
      ground (arith, e, rest.1, move_last_next i r s rs rest.0 rest.1)
]
