-- ===== src/Httd/Manager/Maps.antt =====
-- The maps of the bucket manager: what a write does to them, and their pointers.
use disgord.Base.{
  ℕ, suc, ◌≡◌, ◌≢◌, ◌<◌, refl, sym, ◌∙◌, ap, List, [], ◌∷◌, Option, none, some, false, String,
  str_eq, arith, eq_iff, ◌⊎◌, inl, inr, if◌then◌else◌, Bool-cases,
}
use disgord.Httd.Manager.{find, put}

-- Every pointer in the map of the buckets is into a store of the size.
abbrev pub IsInto : ℕ → List (String × Option ℕ) → Type 0
IsInto n [] = Unit
IsInto n ((k, none) ∷ xs) = ⊥
IsInto n ((k, some p) ∷ xs) = (p < n) × IsInto n xs

pub find-IsInto :
    (n : ℕ) (k : String) (xs : List (String × Option ℕ))
    → IsInto n xs
    → (find k xs ≡ none) ⊎ ((p : ℕ) × (find k xs ≡ some (some p)) × (p < n))
unfolding find
find-IsInto n k [] v = inl refl
find-IsInto n k ((j, none) ∷ xs) v = absurd v
find-IsInto n k ((j, some p) ∷ xs) v = elim (Bool-cases (str_eq j k)) [
  | inl hit ↦ inr (p, rw hit refl, v.0)
  | inr miss ↦ rw miss (find-IsInto n k xs v.1)
]

pub put-IsInto :
    (n p : ℕ) (k : String) (xs : List (String × Option ℕ))
    → p < n
    → IsInto n xs
    → IsInto n (put k (some p) xs)
unfolding put
put-IsInto n p k [] h v = (h, tt)
put-IsInto n p k ((j, none) ∷ xs) h v = absurd v
put-IsInto n p k ((j, some q) ∷ xs) h v = elim (Bool-cases (str_eq j k)) [
  | inl hit ↦ rw hit (h, v.1)
  | inr miss ↦ rw miss (v.0, put-IsInto n p k xs h v.1)
]

pub grow-IsInto : (n : ℕ) (xs : List (String × Option ℕ)) → IsInto n xs → IsInto (suc n) xs
grow-IsInto n [] v = tt
grow-IsInto n ((j, none) ∷ xs) v = absurd v
grow-IsInto n ((j, some q) ∷ xs) v = (omega arith, grow-IsInto n xs v.1)

pub find-put_same :
    {A : Type 0} (k : String) (a : A) (xs : List (String × A)) → find k (put k a xs) ≡ some a
unfolding find put
find-put_same k a [] = rw ((eq_iff k k).1 refl) refl
find-put_same k a ((j, b) ∷ xs) = elim (Bool-cases (str_eq j k)) [
  | inl hit ↦ rw hit (rw hit refl)
  | inr miss ↦ rw miss (rw miss (find-put_same k a xs))
]

pub str_eq-ne : (k l : String) → k ≢ l → str_eq k l ≡ false
str_eq-ne k l h = elim (Bool-cases (str_eq k l)) [
  | inl e ↦ absurd (h ((eq_iff k l).0 e))
  | inr e ↦ e
]

pub find-put_other :
    {A : Type 0} (k l : String) (a : A) (xs : List (String × A))
    → k ≢ l
    → find l (put k a xs) ≡ find l xs
unfolding find put
find-put_other k l a [] h = rw (str_eq-ne k l h) refl
find-put_other k l a ((j, b) ∷ xs) h = elim (Bool-cases (str_eq j k)) [
  | inl hit ↦
      let other = str_eq-ne j l (λ e. h (sym ((eq_iff j k).0 hit) ∙ e)) in rw (hit, other) refl
  | inr miss ↦ rw miss (ap (λ r. if str_eq j l then some b else r) (find-put_other k l a xs h))
]
