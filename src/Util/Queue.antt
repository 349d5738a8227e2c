-- ===== src/Util/Queue.antt =====
-- internal/util/queue.go: the queue that is not thread safe, and the one that is, whose methods
-- are the same calls under a lock. A panic is `none` outside, an error `none` inside.
use mathlib.Core.Option
use disgord.Base.{
  ℕ, zero, suc, ◌≡◌, refl, ap, ◌∙◌, List, [], ◌∷◌, ◌++◌, map, Option, none, some, length,
}
use mathlib.Core.List.{map-append}
use disgord.Util.Shift.{shift_left, shift_left-cons}

pub record Queue {ℓ} (A : Type ℓ) : Type ℓ where
  pub items : List A

module _ {ℓ} {A : Type ℓ} where
  unfoldable pub new_queue : Queue A
  new_queue = record { items = [] }

  pop_from : List A → Option (Option A × Queue A)
  pop_from [] = some (none, record { items = [] })
  pop_from (x ∷ xs) = Option.map (λ rest. (some x, record { items = rest })) (shift_left (x ∷ xs))

  unfoldable pub pop : Queue A → Option (Option A × Queue A)
  unfolding pop_from
  pop q = pop_from q.items

  unfoldable pub push : List A → Queue A → Queue A
  push xs q = record q { items = q.items ++ xs }

  unfoldable pub len : Queue A → ℕ
  len q = length q.items

  -- `n` calls of `pop`, with what they return.
  unfoldable pub pops : ℕ → Queue A → Option (List (Option A) × Queue A)
  pops zero q = some ([], q)
  pops (suc n) q = elim (pop q) [
    | none ↦ none
    | some (r, q') ↦
        Option.map (λ ((rs, q'') : List (Option A) × Queue A). (r ∷ rs, q'')) (pops n q')
  ]

  pop-cons :
      (x : A) (xs : List A) → pop (record { items = x ∷ xs }) ≡ some (some x, record { items = xs })
  unfolding pop
  pop-cons x xs = rw (shift_left-cons x xs)

  pops-items :
      (xs : List A)
      → pops (suc (length xs)) (record { items = xs })
        ≡ some (map some xs ++ none ∷ [], record { items = [] })
  unfolding pops
  pops-items [] = unfold pop in refl
  pops-items (x ∷ xs) = rw (pop-cons x xs, pops) (rw (pops-items xs))

  -- First in, first out: popping a queue once more than it has entries never panics, returns the
  -- old entries and then the pushed ones, each once and in order, then the error that it is empty,
  -- and leaves it empty.
  pops-push :
      (q : Queue A) (xs : List A)
      → pops (suc (len (push xs q))) (push xs q)
        ≡ some (map some q.items ++ map some xs ++ none ∷ [], new_queue)
  unfolding len push new_queue
  pops-push q xs =
      pops-items (q.items ++ xs)
      ∙ ap (λ (rs : List (Option A)). some (rs ++ none ∷ [], record { items = [] }))
          (map-append some q.items xs)
