-- ===== src/Sorting/Tests.antt =====
-- Sort (sort_gen.go), on a few roles.
use mathlib.Core.List.{Perm}
use disgord.Base.{ℕ, List, [], ◌∷◌, ◌≡◌, refl, ◌⊎◌, none, some, true, false}
use disgord.Base.Int.{pos}
use disgord.Base.Text.{Text, bytes}
use disgord.Sorting.{
  Flag, merge_flags, sort_by_name_flag, order_descending, Item, snowflake, slice, slice_pointer,
  is_type, sort, sort_value, sort_slice, insert_by, sort_by_name, sorted_by, deref_slice,
  with_items, has_flag, name_less, is_descending, text_lt,
}
use disgord.Sorting.Insertion.{IsOrdered}
use disgord.Sorting.Sorted.{types_for, asked_order, sort_lem}

abbrev role : ℕ → Text → Item
role n name = record {
  object = n;
  id = snowflake n;
  guild_id = 0;
  channel_id = 0;
  name = name;
  hoist = false;
  position = pos 0;
}

abbrev roles : List Item
roles = role 1 (bytes "b") ∷ role 2 (bytes "k") ∷ role 3 (bytes "a") ∷ []

abbrev flags : List Flag
flags = sort_by_name_flag ∷ order_descending ∷ []

roles_descending :
    sort (λ t. t) (slice "Role" roles) flags
    ≡ some (slice "Role" (role 2 (bytes "k") ∷ role 1 (bytes "b") ∷ role 3 (bytes "a") ∷ []))
unfolding sort sort_value sort_slice insert_by sort_by_name sorted_by deref_slice with_items
    has_flag name_less is_descending text_lt is_type merge_flags
roles_descending = refl

sort_lem_example :
    ((is_type "Role" (types_for (merge_flags flags)) ≡ true)
      × (ys : List Item) × (sort (λ t. t) (slice "Role" roles) flags ≡ some (slice "Role" ys))
      × (sort (λ t. t) (slice_pointer "Role" roles) flags ≡ some (slice_pointer "Role" ys))
      × Perm ys roles
      × IsOrdered (asked_order (λ t. t) (merge_flags flags)) ys)
    ⊎ ((is_type "Role" (types_for (merge_flags flags)) ≡ false)
        × (sort (λ t. t) (slice "Role" roles) flags ≡ none)
        × (sort (λ t. t) (slice_pointer "Role" roles) flags ≡ none))
sort_lem_example = sort_lem (λ t. t) "Role" roles flags
