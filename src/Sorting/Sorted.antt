-- ===== src/Sorting/Sorted.antt =====
-- What Sort (sort_gen.go) does: which values it sorts, and how.
use mathlib.Core.List.{Perm}
use disgord.Base.{
  List, [], ◌∷◌, ◌≡◌, refl, sym, ◌∙◌, ltb, not, ◌⊎◌, inl, inr, Option, none, some, Bool, true,
  false, ◌&&◌, if◌then◌else◌, arith, All, Bool-cases, String, eq_iff,
}
use Prim.Native.Nat.{bit_and}
use disgord.Base.Int.{eq_ℤ, ltb_ℤ}
use disgord.Base.Text.{Text}
use disgord.Sorting.Types.{
  pointer_types, id_types, guild_id_types, channel_id_types, name_types, hoist_types,
}
use disgord.Sorting.{
  Flag, has_flag, key_lt, text_lt, is_descending, merge_flags, sort_by_id_flag,
  sort_by_guild_id_flag, sort_by_channel_id_flag, sort_by_name_flag, sort_by_hoist_flag, Item, Less,
  Value, slice, slice_pointer, sort_slice, is_type, deref_slice, with_items, sorted_by, id_less,
  guild_id_less, channel_id_less, hoist_less, roles_less, in_direction, name_less, sort_by_id,
  sort_by_guild_id, sort_by_channel_id, sort_by_hoist, sort_by_name, sort_by_order, sort_value,
  sort,
}
use disgord.Sorting.Orders.{
  IsWeakOrder, id_less-IsWeakOrder, guild_id_less-IsWeakOrder, channel_id_less-IsWeakOrder,
  hoist_less-IsWeakOrder, name_less-IsWeakOrder, roles_less-IsWeakOrder, in_direction-IsWeakOrder,
}
use disgord.Sorting.Insertion.{IsOrdered, sort_slice-perm, sort_slice-IsOrdered}

-- The types that a merge of flags sorts, and their order: by the first of the ID, the guild's ID, the
-- channel's ID, the name and the hoist that the flags ask for, or else in the order of roles.
unfoldable pub types_for : Flag → List String
types_for flags =
    if has_flag flags sort_by_id_flag
    then id_types
    else if has_flag flags sort_by_guild_id_flag
    then guild_id_types
    else if has_flag flags sort_by_channel_id_flag
    then channel_id_types
    else if has_flag flags sort_by_name_flag
    then name_types
    else if has_flag flags sort_by_hoist_flag
    then hoist_types
    else "Role" ∷ []

is_type_of :
    (t : String) (us vs : List String)
    → All (λ u. is_type u vs ≡ true) us
    → is_type t us ≡ true
    → is_type t vs ≡ true
unfolding is_type
is_type_of t [] vs h e = ground (arith, e)
is_type_of t (u ∷ us) vs h e = ground (arith, e, h.0, h.1, eq_iff t u, is_type_of t us vs h.1)

-- The pointers to slices of these types are known.
HasPointers : List String → Type 0
HasPointers types = All (λ u. is_type u pointer_types ≡ true) types

-- a slice of a type is sorted if the types have it
sorts : Bool → (List Item → Value) → Less → List Item → Option Value
sorts known v less items = if known then some (v (sort_slice less items)) else none

sorted_by-slice :
    (types : List String) (less : Less) (t : String) (items : List Item)
    → sorted_by types less (slice t items) ≡ sorts (is_type t types) (slice t) less items
unfolding sorted_by deref_slice with_items sorts
sorted_by-slice types less t items = ground arith

sorted_by-slice_pointer :
    (types : List String) (less : Less) (t : String) (items : List Item)
    → HasPointers types
    → sorted_by types less (slice_pointer t items)
      ≡ sorts (is_type t types) (slice_pointer t) less items
unfolding sorted_by deref_slice with_items sorts HasPointers
sorted_by-slice_pointer types less t items h = elim (Bool-cases (is_type t types)) [
  | inl known ↦ let p = is_type_of t types pointer_types h known in ground (arith, known, p)
  | inr unknown ↦ ground (arith, unknown)
]

all_known : List String → Bool
all_known [] = true
all_known (u ∷ us) = is_type u pointer_types && all_known us

all_known-HasPointers : (us : List String) → all_known us ≡ true → HasPointers us
unfolding all_known HasPointers
all_known-HasPointers [] h = tt
all_known-HasPointers (u ∷ us) h = (ground (arith, h), all_known-HasPointers us (ground (arith, h)))

id_pointers : HasPointers id_types
unfolding all_known is_type
id_pointers = all_known-HasPointers id_types refl

guild_id_pointers : HasPointers guild_id_types
unfolding all_known is_type
guild_id_pointers = all_known-HasPointers guild_id_types refl

channel_id_pointers : HasPointers channel_id_types
unfolding all_known is_type
channel_id_pointers = all_known-HasPointers channel_id_types refl

name_pointers : HasPointers name_types
unfolding all_known is_type
name_pointers = all_known-HasPointers name_types refl

hoist_pointers : HasPointers hoist_types
unfolding all_known is_type
hoist_pointers = all_known-HasPointers hoist_types refl

All-same :
    (f g : Less) (x : Item) (ys : List Item)
    → ((a b : Item) → f a b ≡ g a b)
    → All (λ y. f y x ≡ false) ys
    → All (λ y. g y x ≡ false) ys
All-same f g x [] e h = tt
All-same f g x (y ∷ ys) e h = (sym (e y x) ∙ h.0, All-same f g x ys e h.1)

IsOrdered-same :
    (f g : Less)
    → ((a b : Item) → f a b ≡ g a b)
    → (ys : List Item) → IsOrdered f ys
    → IsOrdered g ys
IsOrdered-same f g e [] h = tt
IsOrdered-same f g e (y ∷ ys) h = (All-same f g y ys e h.0, IsOrdered-same f g e ys h.1)

either : (b : Bool) (f g : Less) → IsWeakOrder f → IsWeakOrder g → IsWeakOrder (if b then f else g)
either true f g h k = h
either false f g h k = k

module _ (to_lower : Text → Text) where
  unfoldable pub less_for : Flag → Less
  less_for flags =
      if has_flag flags sort_by_id_flag
      then id_less flags
      else if has_flag flags sort_by_guild_id_flag
      then guild_id_less flags
      else if has_flag flags sort_by_channel_id_flag
      then channel_id_less flags
      else if has_flag flags sort_by_name_flag
      then name_less to_lower flags
      else if has_flag flags sort_by_hoist_flag
      then hoist_less flags
      else in_direction flags roles_less

  -- A value that is sorted as the items of a slice of the type `t`.
  record IsSlice (t : String) (items : List Item) (v : Value) (mk : List Item → Value)
      : Type 0 where
    by_types :
        (types : List String) (less : Less)
        → HasPointers types
        → sorted_by types less v ≡ sorts (is_type t types) mk less items
    by_order :
        (flags : Flag)
        → sort_by_order v flags
          ≡ sorts (is_type t ("Role" ∷ [])) mk (in_direction flags roles_less) items

  sort_value_lem :
      (t : String) (items : List Item) (v : Value) (mk : List Item → Value) (flags : Flag)
      → IsSlice t items v mk
      → sort_value to_lower v flags ≡ sorts (is_type t (types_for flags)) mk (less_for flags) items
  unfolding sort_value sort_by_id sort_by_guild_id sort_by_channel_id sort_by_name sort_by_hoist
      types_for less_for
  sort_value_lem t items v mk flags h = elim (Bool-cases (has_flag flags sort_by_id_flag)) [
    | inl a ↦ rw a (h.by_types id_types (id_less flags) id_pointers)
    | inr a ↦ elim (Bool-cases (has_flag flags sort_by_guild_id_flag)) [
      | inl b ↦ rw (a, b) (h.by_types guild_id_types (guild_id_less flags) guild_id_pointers)
      | inr b ↦ elim (Bool-cases (has_flag flags sort_by_channel_id_flag)) [
        | inl c ↦
            rw (a, b, c) (h.by_types channel_id_types (channel_id_less flags) channel_id_pointers)
        | inr c ↦ elim (Bool-cases (has_flag flags sort_by_name_flag)) [
          | inl d ↦ rw (a, b, c, d) (h.by_types name_types (name_less to_lower flags) name_pointers)
          | inr d ↦ elim (Bool-cases (has_flag flags sort_by_hoist_flag)) [
            | inl e ↦ rw (a, b, c, d, e) (h.by_types hoist_types (hoist_less flags) hoist_pointers)
            | inr e ↦ rw (a, b, c, d, e) (h.by_order flags)
          ]
        ]
      ]
    ]
  ]

  slice-IsSlice : (t : String) (items : List Item) → IsSlice t items (slice t items) (slice t)
  unfolding sort_by_order sorts is_type
  slice-IsSlice t items = record {
    by_types = λ types less h. sorted_by-slice types less t items;
    by_order = λ flags. ground arith;
  }

  slice_pointer-IsSlice :
      (t : String) (items : List Item) → IsSlice t items (slice_pointer t items) (slice_pointer t)
  unfolding sort_by_order sorts is_type
  slice_pointer-IsSlice t items = record {
    by_types = λ types less h. sorted_by-slice_pointer types less t items h;
    by_order = λ flags. ground arith;
  }

  less_for-IsWeakOrder : (flags : Flag) → IsWeakOrder (less_for flags)
  unfolding less_for
  less_for-IsWeakOrder flags =
      either (has_flag flags sort_by_id_flag) _ _ (id_less-IsWeakOrder flags) (
        either (has_flag flags sort_by_guild_id_flag) _ _ (guild_id_less-IsWeakOrder flags) (
          either (has_flag flags sort_by_channel_id_flag) _ _ (channel_id_less-IsWeakOrder flags) (
            either (has_flag flags sort_by_name_flag) _ _ (name_less-IsWeakOrder to_lower flags) (
              either (has_flag flags sort_by_hoist_flag) _ _ (hoist_less-IsWeakOrder flags)
                (in_direction-IsWeakOrder flags roles_less roles_less-IsWeakOrder)))))

  -- The order that is asked for, by the bits of flag.go: the key is the first of the ID (bit 2), the
  -- guild's ID (5), the channel's ID (6), the name in lower case (3) and the hoist (4) whose bit is set,
  -- or else the position, the highest first, and then the ID.
  abbrev pub comes_before : Flag → Less
  comes_before flags a b =
      if ltb 0 (bit_and flags 4)
      then key_lt a.id b.id
      else if ltb 0 (bit_and flags 32)
      then ltb a.guild_id b.guild_id
      else if ltb 0 (bit_and flags 64)
      then ltb a.channel_id b.channel_id
      else if ltb 0 (bit_and flags 8)
      then text_lt (to_lower a.name) (to_lower b.name)
      else if ltb 0 (bit_and flags 16)
      then not a.hoist && b.hoist
      else if eq_ℤ a.position b.position
      then key_lt a.id b.id
      else ltb_ℤ b.position a.position

  -- The other way round if bit 8 is set.
  abbrev pub asked_order : Flag → Less
  asked_order flags a b =
      if ltb 0 (bit_and flags 256) then comes_before flags b a else comes_before flags a b

  hoist_both : (a b : Bool) → a && not b ≡ not b && a
  hoist_both true b = ground arith
  hoist_both false true = refl
  hoist_both false false = refl

  less_for_lem : (flags : Flag) (a b : Item) → less_for flags a b ≡ asked_order flags a b
  unfolding less_for id_less guild_id_less channel_id_less name_less hoist_less in_direction
      roles_less is_descending has_flag
  less_for_lem flags a b = ground (arith, hoist_both a.hoist b.hoist)

  -- A slice of pointers to structs and a pointer to it are sorted alike. If the struct has what the
  -- first flag asks for, of ID, guild ID, channel ID, name and hoist in this order, or is a role when
  -- none does, then Sort gives the same items in the order that is asked for, by that key and upwards,
  -- of roles from the highest position down, or the other way round with OrderDescending; for any other
  -- struct it panics.
  pub sort_lem :
      (t : String) (items : List Item) (fs : List Flag)
      → let flags = merge_flags fs in
        ((is_type t (types_for flags) ≡ true)
          × (ys : List Item) × (sort to_lower (slice t items) fs ≡ some (slice t ys))
          × (sort to_lower (slice_pointer t items) fs ≡ some (slice_pointer t ys))
          × Perm ys items
          × IsOrdered (asked_order flags) ys)
        ⊎ ((is_type t (types_for flags) ≡ false)
            × (sort to_lower (slice t items) fs ≡ none)
            × (sort to_lower (slice_pointer t items) fs ≡ none))
  unfolding sort sorts
  sort_lem t items fs =
      let flags : Flag = merge_flags fs in
      let a = sort_value_lem t items (slice t items) (slice t) flags (slice-IsSlice t items) in
      let b =
        sort_value_lem t items (slice_pointer t items) (slice_pointer t) flags
          (slice_pointer-IsSlice t items) in
      elim (Bool-cases (is_type t (types_for flags))) [
        | inl known ↦ inl (
          known,
          sort_slice (less_for flags) items,
          ground (arith, a, known),
          ground (arith, b, known),
          sort_slice-perm (less_for flags) items,
          IsOrdered-same (less_for flags) (asked_order flags) (less_for_lem flags) _
              (sort_slice-IsOrdered (less_for flags) (less_for-IsWeakOrder flags) items),
        )
        | inr unknown ↦ inr (unknown, ground (arith, a, unknown), ground (arith, b, unknown))
      ]
