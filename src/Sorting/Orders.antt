-- ===== src/Sorting/Orders.antt =====
-- The comparisons of Sort (sort_gen.go, role.go) are strict weak orders.
use disgord.Base.{
  [], ◌∷◌, ◌≡◌, refl, sym, ◌∙◌, Bool, true, false, not, ltb, ◌&&◌, if◌then◌else◌, arith,
}
use disgord.Base.Int.{ℤ, pos, negsuc, ltb_ℤ, eq_ℤ}
use disgord.Base.Text.{Text}
use disgord.Sorting.{
  Flag, Key, snowflake, text, text_lt, key_lt, Item, Less, is_descending, id_less, guild_id_less,
  channel_id_less, hoist_less, roles_less, in_direction, name_less,
}

-- `<` is never both ways, and "not less" goes through: what sort.Slice asks for.
pub record IsWeakOrder {A : Type 0} (less : A → A → Bool) : Type 0 where
  pub asym : (a b : A) → less a b ≡ true → less b a ≡ false
  pub through : (a b c : A) → less b a ≡ false → less c b ≡ false → less c a ≡ false

module _ {A : Type 0} (less : A → A → Bool) (h : IsWeakOrder less) where
  IsWeakOrder-flip : IsWeakOrder (λ a b. less b a)
  IsWeakOrder-flip = record {
    asym = λ a b e. h.asym b a e;
    through = λ a b c e f. h.through c b a f e;
  }

  IsWeakOrder-by : {B : Type 0} (key : B → A) → IsWeakOrder (λ a b. less (key a) (key b))
  IsWeakOrder-by key = record {
    asym = λ a b e. h.asym (key a) (key b) e;
    through = λ a b c e f. h.through (key a) (key b) (key c) e f;
  }

IsWeakOrder-if :
    {A : Type 0} (b : Bool) (less less' : A → A → Bool)
    → IsWeakOrder less
    → IsWeakOrder less'
    → IsWeakOrder (λ x y. if b then less x y else less' x y)
IsWeakOrder-if true less less' h k = h
IsWeakOrder-if false less less' h k = k

ltb-IsWeakOrder : IsWeakOrder ltb
ltb-IsWeakOrder = record { asym = λ a b e. ground arith; through = λ a b c e f. ground arith }

text_asym : (a b : Text) → text_lt a b ≡ true → text_lt b a ≡ false
unfolding text_lt
text_asym [] [] e = refl
text_asym [] (y ∷ ys) e = refl
text_asym (x ∷ xs) [] e = ground (arith, e)
text_asym (x ∷ xs) (y ∷ ys) e = ground (arith, e, text_asym xs ys)

text_through : (a b c : Text) → text_lt b a ≡ false → text_lt c b ≡ false → text_lt c a ≡ false
unfolding text_lt
text_through [] [] c e f = f
text_through [] (y ∷ ys) [] e f = refl
text_through [] (y ∷ ys) (z ∷ zs) e f = refl
text_through (x ∷ xs) [] c e f = ground (arith, e)
text_through (x ∷ xs) (y ∷ ys) [] e f = ground (arith, f)
text_through (x ∷ xs) (y ∷ ys) (z ∷ zs) e f = ground (arith, e, f, text_through xs ys zs)

text_lt-IsWeakOrder : IsWeakOrder text_lt
text_lt-IsWeakOrder = record { asym = text_asym; through = text_through }

key_asym : (a b : Key) → key_lt a b ≡ true → key_lt b a ≡ false
unfolding key_lt
key_asym (snowflake a) (snowflake b) e = ground (arith, e)
key_asym (snowflake a) (text t) e = refl
key_asym (text s) (snowflake b) e = ground (arith, e)
key_asym (text s) (text t) e = text_asym s t e

key_through : (a b c : Key) → key_lt b a ≡ false → key_lt c b ≡ false → key_lt c a ≡ false
unfolding key_lt
key_through (snowflake a) (snowflake b) (snowflake c) e f = ground (arith, e, f)
key_through (snowflake a) (snowflake b) (text t) e f = refl
key_through (snowflake a) (text s) (snowflake c) e f = ground (arith, f)
key_through (snowflake a) (text s) (text t) e f = refl
key_through (text r) (snowflake b) c e f = ground (arith, e)
key_through (text r) (text s) (snowflake c) e f = ground (arith, f)
key_through (text r) (text s) (text t) e f = text_through r s t e f

key_lt-IsWeakOrder : IsWeakOrder key_lt
key_lt-IsWeakOrder = record { asym = key_asym; through = key_through }

bool_asym : (a b : Bool) → not a && b ≡ true → not b && a ≡ false
bool_asym true b e = ground (arith, e)
bool_asym false true e = refl
bool_asym false false e = ground (arith, e)

bool_through : (a b c : Bool) → not b && a ≡ false → not c && b ≡ false → not c && a ≡ false
bool_through a b true e f = refl
bool_through true true false e f = ground (arith, f)
bool_through true false false e f = ground (arith, e)
bool_through false b false e f = refl

bool-IsWeakOrder : IsWeakOrder (λ a b. not a && b)
bool-IsWeakOrder = record { asym = bool_asym; through = bool_through }

and_not : (a b : Bool) → a && not b ≡ not b && a
and_not true b = ground arith
and_not false true = refl
and_not false false = refl

bool_down-IsWeakOrder : IsWeakOrder (λ a b. a && not b)
bool_down-IsWeakOrder = record {
  asym = λ a b e. and_not b a ∙ bool_asym b a (sym (and_not a b) ∙ e);
  through =
      λ a b c e f. and_not c a ∙ bool_through c b a (sym (and_not c b) ∙ f) (sym (and_not b a) ∙ e);
}

-- the order of roles, by position and ID
by_position : ℤ × Key → ℤ × Key → Bool
by_position (p, i) (q, j) = if eq_ℤ p q then key_lt i j else ltb_ℤ q p

position_asym :
    (p q : ℤ) (i j : Key) → by_position (p, i) (q, j) ≡ true → by_position (q, j) (p, i) ≡ false
unfolding by_position
position_asym (pos a) (pos b) i j e = ground (arith, e, key_asym i j)
position_asym (pos a) (negsuc b) i j e = ground (arith, e)
position_asym (negsuc a) (pos b) i j e = ground (arith, e)
position_asym (negsuc a) (negsuc b) i j e = ground (arith, e, key_asym i j)

position_through :
    (p q r : ℤ) (i j k : Key)
    → by_position (q, j) (p, i) ≡ false
    → by_position (r, k) (q, j) ≡ false
    → by_position (r, k) (p, i) ≡ false
unfolding by_position
position_through (pos a) (pos b) (pos c) i j k e f = ground (arith, e, f, key_through i j k)
position_through (pos a) (pos b) (negsuc c) i j k e f = ground (arith, e, f)
position_through (pos a) (negsuc b) (pos c) i j k e f = ground (arith, e, f)
position_through (pos a) (negsuc b) (negsuc c) i j k e f = ground (arith, e, f)
position_through (negsuc a) (pos b) (pos c) i j k e f = ground (arith, e, f)
position_through (negsuc a) (pos b) (negsuc c) i j k e f = ground (arith, e, f)
position_through (negsuc a) (negsuc b) (pos c) i j k e f = ground (arith, e, f)
position_through (negsuc a) (negsuc b) (negsuc c) i j k e f =
    ground (arith, e, f, key_through i j k)

by_position-IsWeakOrder : IsWeakOrder by_position
by_position-IsWeakOrder = record {
  asym = λ a b e. position_asym a.0 b.0 a.1 b.1 e;
  through = λ a b c e f. position_through a.0 b.0 c.0 a.1 b.1 c.1 e f;
}

-- an order by a key, the other way round if the flags say so
by_key :
    {K : Type 0} (lt : K → K → Bool) (key : Item → K) (flags : Flag)
    → IsWeakOrder lt
    → IsWeakOrder (λ a b. if is_descending flags then lt (key b) (key a) else lt (key a) (key b))
by_key lt key flags h =
    let up = IsWeakOrder-by lt h key in
    IsWeakOrder-if (is_descending flags) (λ a b. lt (key b) (key a)) (λ a b. lt (key a) (key b))
      (IsWeakOrder-flip (λ a b. lt (key a) (key b)) up) up

pub id_less-IsWeakOrder : (flags : Flag) → IsWeakOrder (id_less flags)
unfolding id_less
id_less-IsWeakOrder flags = by_key key_lt (λ a. a.id) flags key_lt-IsWeakOrder

pub guild_id_less-IsWeakOrder : (flags : Flag) → IsWeakOrder (guild_id_less flags)
unfolding guild_id_less
guild_id_less-IsWeakOrder flags = by_key ltb (λ a. a.guild_id) flags ltb-IsWeakOrder

pub channel_id_less-IsWeakOrder : (flags : Flag) → IsWeakOrder (channel_id_less flags)
unfolding channel_id_less
channel_id_less-IsWeakOrder flags = by_key ltb (λ a. a.channel_id) flags ltb-IsWeakOrder

pub hoist_less-IsWeakOrder : (flags : Flag) → IsWeakOrder (hoist_less flags)
unfolding hoist_less
hoist_less-IsWeakOrder flags =
    IsWeakOrder-if (is_descending flags) (λ a b. a.hoist && not b.hoist)
      (λ a b. not a.hoist && b.hoist)
      (IsWeakOrder-by (λ a b. a && not b) bool_down-IsWeakOrder (λ (a : Item). a.hoist))
      (IsWeakOrder-by (λ a b. not a && b) bool-IsWeakOrder (λ (a : Item). a.hoist))

pub name_less-IsWeakOrder :
    (to_lower : Text → Text) (flags : Flag) → IsWeakOrder (name_less to_lower flags)
unfolding name_less
name_less-IsWeakOrder to_lower flags =
    by_key text_lt (λ a. to_lower a.name) flags text_lt-IsWeakOrder

pub roles_less-IsWeakOrder : IsWeakOrder roles_less
unfolding roles_less by_position
roles_less-IsWeakOrder =
    IsWeakOrder-by by_position by_position-IsWeakOrder (λ (a : Item). (a.position, a.id))

pub in_direction-IsWeakOrder :
    (flags : Flag) (less : Less) → IsWeakOrder less → IsWeakOrder (in_direction flags less)
unfolding in_direction
in_direction-IsWeakOrder flags less h =
    IsWeakOrder-if (is_descending flags) (λ a b. less b a) less (IsWeakOrder-flip less h) h
