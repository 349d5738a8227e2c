-- ===== src/Gateway/Shards/Grouping.antt =====
-- How the guilds of a request are split by shard.
use disgord.Base.{
  ℕ, ◌/◌, ◌%◌, ◌^◌, ◌≡◌, ◌≢◌, refl, ◌∙◌, List, [], ◌∷◌, ◌++◌, Option, none, some, Bool, false,
  arith, ◌==◌, ◌||◌, if◌then◌else◌, Bool-cases, inl, inr,
}
use mathlib.Core.List.{append_assoc, append-nil}
use disgord.Gateway.Shards.{find, append_to, group, get_shard_for_guild_id}

abbrev pub elem : ℕ → List ℕ → Bool
elem g [] = false
elem g (h ∷ hs) = (h == g) || elem g hs

-- The guilds of the list that belong to the shard, in their order.
abbrev pub of_shard : ℕ → ℕ → List ℕ → List ℕ
of_shard count k [] = []
of_shard count k (g ∷ gs) =
    let rest = of_shard count k gs in if (g / 2 ^ 22) % count == k then g ∷ rest else rest

-- No key occurs twice.
abbrev pub IsMap {ℓ} : {A : Type ℓ} → List (ℕ × A) → Type ℓ
IsMap [] = Unit
IsMap ((k, a) ∷ xs) = (find k xs ≡ none) × IsMap xs

-- An iteration that visits each entry once, in whatever order.
abbrev pub IsIteration : (List (ℕ × List ℕ) → List (ℕ × List ℕ)) → Type 0
IsIteration order =
    (rs : List (ℕ × List ℕ))
    → IsMap rs
    → IsMap (order rs) × ((k : ℕ) → find k (order rs) ≡ find k rs)

-- What the map holds once the guilds are appended to an entry.
abbrev pub extended : Option (List ℕ) → List ℕ → Option (List ℕ)
extended none [] = none
extended none (g ∷ gs) = some (g ∷ gs)
extended (some hs) gs = some (hs ++ gs)

find-append_to :
    (id g : ℕ) (rs : List (ℕ × List ℕ)) (k : ℕ)
    → find k (append_to id g rs) ≡ (if id == k then extended (find k rs) (g ∷ []) else find k rs)
unfolding find append_to
find-append_to id g [] k = ground arith
find-append_to id g ((j, gs) ∷ rs) k = ground (arith, find-append_to id g rs k)

append_to-IsMap : (id g : ℕ) (rs : List (ℕ × List ℕ)) → IsMap rs → IsMap (append_to id g rs)
unfolding append_to find
append_to-IsMap id g [] v = ground arith
append_to-IsMap id g ((j, gs) ∷ rs) v =
    ground (arith, append_to-IsMap id g rs v.1, find-append_to id g rs j)

extended_nil : (o : Option (List ℕ)) → o ≡ extended o []
extended_nil none = refl
extended_nil (some hs) = rw append-nil

extended_cons :
    (o : Option (List ℕ)) (g : ℕ) (gs : List ℕ)
    → extended (extended o (g ∷ [])) gs ≡ extended o (g ∷ gs)
extended_cons none g gs = refl
extended_cons (some hs) g gs = rw (append_assoc hs (g ∷ []) gs)

get_shard_lem :
    (g count : ℕ) → count ≢ 0 → get_shard_for_guild_id g count ≡ some ((g / 2 ^ 22) % count)
unfolding get_shard_for_guild_id
get_shard_lem g count h = ground arith

-- After one more guild, an entry holds what it held, the guild if it belongs there, and the rest.
extended_step :
    (count g : ℕ) (gs : List ℕ) (rs : List (ℕ × List ℕ)) (k : ℕ)
    → extended (find k (append_to ((g / 2 ^ 22) % count) g rs)) (of_shard count k gs)
      ≡ extended (find k rs) (of_shard count k (g ∷ gs))
extended_step count g gs rs k = elim (Bool-cases ((g / 2 ^ 22) % count == k)) [
  | inl hit ↦ rw (find-append_to, hit) (extended_cons (find k rs) g (of_shard count k gs))
  | inr miss ↦ rw (find-append_to, miss) refl
]

-- Grouping never divides by zero if there is a shard count. It leaves one entry for each shard that
-- a guild belongs to, which holds the guilds of that shard in their order.
pub group_lem :
    (count : ℕ) (gs : List ℕ) (rs : List (ℕ × List ℕ))
    → count ≢ 0
    → IsMap rs
    → (rs' : List (ℕ × List ℕ)) × (group count gs rs ≡ some rs')
      × IsMap rs'
      × ((k : ℕ) → find k rs' ≡ extended (find k rs) (of_shard count k gs))
unfolding group
group_lem count [] rs h v = (rs, refl, v, λ k. extended_nil (find k rs))
group_lem count (g ∷ gs) rs h v =
    let id = (g / 2 ^ 22) % count in
    let (rs', e, v', same) = group_lem count gs (append_to id g rs) h (append_to-IsMap id g rs v) in
    (rs', rw (get_shard_lem g count h) e, v', λ k. same k ∙ extended_step count g gs rs k)
