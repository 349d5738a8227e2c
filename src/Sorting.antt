-- ===== src/Sorting.antt =====
-- Sort (sort_gen.go), with the flags of flag.go and the order of roles of role.go. Of a type with many
-- structs only what the comparisons read is kept of an element, and the object it is. sort.Slice and
-- sort.Sort are an insertion sort here. A panic is `none`; `strings.ToLower` is an argument, since it
-- depends on the tables of Unicode.
pub mod Types
pub mod Orders
pub mod Insertion
pub mod Sorted
mod Tests
use Prim.Native.Nat.{bit_and, bit_or}
use disgord.Base.{
  ℕ, List, [], ◌∷◌, Option, none, some, Bool, true, false, not, ltb, ◌==◌, ◌&&◌, ◌||◌,
  if◌then◌else◌, String, str_eq,
}
use disgord.Base.Int.{ℤ, ltb_ℤ, eq_ℤ}
use disgord.Base.Text.{Text}
use disgord.Sorting.Types.{
  pointer_types, id_types, guild_id_types, channel_id_types, name_types, hoist_types,
}

abbrev pub Flag : Type 0
Flag = ℕ

abbrev pub ignore_cache : Flag
ignore_cache = 1

abbrev pub ignore_empty_params : Flag
ignore_empty_params = 2

abbrev pub sort_by_id_flag : Flag
sort_by_id_flag = 4

abbrev pub sort_by_name_flag : Flag
sort_by_name_flag = 8

abbrev pub sort_by_hoist_flag : Flag
sort_by_hoist_flag = 16

abbrev pub sort_by_guild_id_flag : Flag
sort_by_guild_id_flag = 32

abbrev pub sort_by_channel_id_flag : Flag
sort_by_channel_id_flag = 64

abbrev pub order_ascending : Flag
order_ascending = 128

abbrev pub order_descending : Flag
order_descending = 256

merge_rest : Flag → List Flag → Flag
merge_rest f [] = f
merge_rest f (g ∷ gs) = merge_rest (bit_or f g) gs

unfoldable pub merge_flags : List Flag → Flag
unfolding merge_rest
merge_flags flags = merge_rest 0 flags

-- `(flags & f) > 0`
unfoldable pub has_flag : Flag → Flag → Bool
has_flag flags f = ltb 0 (bit_and flags f)

-- An ID is a snowflake, or a text in a few structs; a slice has IDs of one kind.
pub data Key : Type 0 where
  snowflake : ℕ → Key
  text : Text → Key

-- `<` on strings
unfoldable pub text_lt : Text → Text → Bool
text_lt [] [] = false
text_lt [] (y ∷ ys) = true
text_lt (x ∷ xs) [] = false
text_lt (x ∷ xs) (y ∷ ys) = ltb x y || (x == y && text_lt xs ys)

unfoldable pub key_lt : Key → Key → Bool
key_lt (snowflake a) (snowflake b) = ltb a b
key_lt (snowflake a) (text t) = true
key_lt (text s) (snowflake b) = false
key_lt (text s) (text t) = text_lt s t

pub record Item : Type 0 where
  pub object : ℕ
  pub id : Key
  pub guild_id : ℕ
  pub channel_id : ℕ
  pub name : Text
  pub hoist : Bool
  pub position : ℤ

abbrev pub Less : Type 0
Less = Item → Item → Bool

-- What is sorted: nil, a slice of pointers to a struct or a pointer to such a slice, a value of the
-- bot with an order of its own, or any other value.
pub data Value : Type 0 where
  nil_value other_value : Value
  slice : String → List Item → Value
  slice_pointer : String → List Item → Value
  ordered : Less → List Item → Value

unfoldable pub insert_by : Less → Item → List Item → List Item
insert_by less x [] = x ∷ []
insert_by less x (y ∷ ys) = if less y x then y ∷ insert_by less x ys else x ∷ y ∷ ys

unfoldable pub sort_slice : Less → List Item → List Item
sort_slice less [] = []
sort_slice less (x ∷ xs) = insert_by less x (sort_slice less xs)

unfoldable pub is_type : String → List String → Bool
is_type t [] = false
is_type t (u ∷ us) = str_eq t u || is_type t us

-- `derefSliceP`: the items of a slice of a type that the switch lists
unfoldable pub deref_slice : List String → Value → Option (List Item)
deref_slice types nil_value = none
deref_slice types other_value = none
deref_slice types (ordered less items) = none
deref_slice types (slice t items) = if is_type t types then some items else none
deref_slice types (slice_pointer t items) =
    if is_type t pointer_types && is_type t types then some items else none

-- The slice is sorted in place, behind a pointer too.
unfoldable pub with_items : Value → List Item → Value
with_items nil_value items = nil_value
with_items other_value items = other_value
with_items (slice t old) items = slice t items
with_items (slice_pointer t old) items = slice_pointer t items
with_items (ordered less old) items = ordered less items

unfoldable pub sorted_by : List String → Less → Value → Option Value
sorted_by types less v = elim (deref_slice types v) [
  | none ↦ none
  | some items ↦ some (with_items v (sort_slice less items))
]

unfoldable pub is_descending : Flag → Bool
is_descending flags = has_flag flags order_descending

unfoldable pub id_less : Flag → Less
id_less flags a b = if is_descending flags then key_lt b.id a.id else key_lt a.id b.id

unfoldable pub guild_id_less : Flag → Less
guild_id_less flags a b =
    if is_descending flags then ltb b.guild_id a.guild_id else ltb a.guild_id b.guild_id

unfoldable pub channel_id_less : Flag → Less
channel_id_less flags a b =
    if is_descending flags then ltb b.channel_id a.channel_id else ltb a.channel_id b.channel_id

unfoldable pub hoist_less : Flag → Less
hoist_less flags a b =
    if is_descending flags then a.hoist && not b.hoist else not a.hoist && b.hoist

unfoldable pub sort_by_id : Value → Flag → Option Value
sort_by_id v flags = sorted_by id_types (id_less flags) v

unfoldable pub sort_by_guild_id : Value → Flag → Option Value
sort_by_guild_id v flags = sorted_by guild_id_types (guild_id_less flags) v

unfoldable pub sort_by_channel_id : Value → Flag → Option Value
sort_by_channel_id v flags = sorted_by channel_id_types (channel_id_less flags) v

unfoldable pub sort_by_hoist : Value → Flag → Option Value
sort_by_hoist v flags = sorted_by hoist_types (hoist_less flags) v

-- `roles.Less`: by the position, the highest first, then by the ID
unfoldable pub roles_less : Less
roles_less a b =
    if eq_ℤ a.position b.position then key_lt a.id b.id else ltb_ℤ b.position a.position

unfoldable pub in_direction : Flag → Less → Less
in_direction flags less a b = if is_descending flags then less b a else less a b

-- without a flag that says by what: values with an order, and roles
unfoldable pub sort_by_order : Value → Flag → Option Value
sort_by_order (ordered less items) flags =
    some (ordered less (sort_slice (in_direction flags less) items))
sort_by_order (slice t items) flags =
    if str_eq t "Role"
    then some (slice t (sort_slice (in_direction flags roles_less) items))
    else none
sort_by_order (slice_pointer t items) flags =
    if str_eq t "Role"
    then some (slice_pointer t (sort_slice (in_direction flags roles_less) items))
    else none
sort_by_order nil_value flags = none
sort_by_order other_value flags = none

module _ (to_lower : Text → Text) where
  unfoldable pub name_less : Flag → Less
  name_less flags a b =
      if is_descending flags
      then text_lt (to_lower b.name) (to_lower a.name)
      else text_lt (to_lower a.name) (to_lower b.name)

  unfoldable pub sort_by_name : Value → Flag → Option Value
  sort_by_name v flags = sorted_by name_types (name_less flags) v

  unfoldable pub sort_value : Value → Flag → Option Value
  sort_value v flags =
      if has_flag flags sort_by_id_flag
      then sort_by_id v flags
      else if has_flag flags sort_by_guild_id_flag
      then sort_by_guild_id v flags
      else if has_flag flags sort_by_channel_id_flag
      then sort_by_channel_id v flags
      else if has_flag flags sort_by_name_flag
      then sort_by_name v flags
      else if has_flag flags sort_by_hoist_flag
      then sort_by_hoist v flags
      else sort_by_order v flags

  -- `Sort`
  unfoldable pub sort : Value → List Flag → Option Value
  sort v fs = elim v [ nil_value ↦ some nil_value | other ↦ sort_value other (merge_flags fs) ]
