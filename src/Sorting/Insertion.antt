-- ===== src/Sorting/Insertion.antt =====
-- The sorting that sort.Slice stands for: the same items, in order.
use mathlib.Core.List.{Perm}
use mathlib.Core.List.Perm
use disgord.Base.{List, [], ◌∷◌, ◌≡◌, inl, inr, false, All, Bool-cases}
use disgord.Sorting.{Item, Less, insert_by, sort_slice}
use disgord.Sorting.Orders.{IsWeakOrder}

-- No item is less than one before it.
abbrev pub IsOrdered : Less → List Item → Type 0
IsOrdered less [] = Unit {0}
IsOrdered less (x ∷ xs) = All (λ y. less y x ≡ false) xs × IsOrdered less xs

module _ (less : Less) where
  All-insert_by :
      (P : Item → Type 0) (x : Item) (ys : List Item) → P x → All P ys → All P (insert_by less x ys)
  unfolding insert_by
  All-insert_by P x [] p h = (p, tt)
  All-insert_by P x (y ∷ ys) p h = elim (Bool-cases (less y x)) [
    | inl later ↦ rw later (h.0, All-insert_by P x ys p h.1)
    | inr here ↦ rw here (p, h)
  ]

  insert_by-perm : (x : Item) (ys : List Item) → Perm (insert_by less x ys) (x ∷ ys)
  unfolding insert_by
  insert_by-perm x [] = Perm.refl (x ∷ [])
  insert_by-perm x (y ∷ ys) = elim (Bool-cases (less y x)) [
    | inl later ↦ rw later (Perm.trans (Perm.cons y (insert_by-perm x ys)) (Perm.swap x y ys))
    | inr here ↦ rw here (Perm.refl (x ∷ y ∷ ys))
  ]

  pub sort_slice-perm : (xs : List Item) → Perm (sort_slice less xs) xs
  unfolding sort_slice
  sort_slice-perm [] = Perm.refl []
  sort_slice-perm (x ∷ xs) =
      Perm.trans (insert_by-perm x (sort_slice less xs)) (Perm.cons x (sort_slice-perm xs))

  module _ (h : IsWeakOrder less) where
    All-through :
        (x y : Item) (ys : List Item)
        → less y x ≡ false
        → All (λ z. less z y ≡ false) ys
        → All (λ z. less z x ≡ false) ys
    All-through x y [] e k = tt
    All-through x y (z ∷ ys) e k = (h.through x y z e k.0, All-through x y ys e k.1)

    insert_by-IsOrdered :
        (x : Item) (ys : List Item) → IsOrdered less ys → IsOrdered less (insert_by less x ys)
    unfolding insert_by
    insert_by-IsOrdered x [] k = (tt, tt)
    insert_by-IsOrdered x (y ∷ ys) k = elim (Bool-cases (less y x)) [
      | inl later ↦ rw later (
        All-insert_by (λ z. less z y ≡ false) x ys (h.asym y x later) k.0,
        insert_by-IsOrdered x ys k.1,
      )
      | inr here ↦ rw here ((here, All-through x y ys here k.0), k)
    ]

    pub sort_slice-IsOrdered : (xs : List Item) → IsOrdered less (sort_slice less xs)
    unfolding sort_slice
    sort_slice-IsOrdered [] = tt
    sort_slice-IsOrdered (x ∷ xs) =
        insert_by-IsOrdered x (sort_slice less xs) (sort_slice-IsOrdered xs)
