-- ===== src/Util/Shift.antt =====
-- The in-place shifts that the program writes as loops over an array: towards the front in
-- `queue.Pop` (internal/util/queue.go) and `clientPktQueue.Try` (internal/gateway/queue.go), and
-- towards the back in `rlBucket.Insert` (internal/gateway/ratelimit.go). An index out of range is
-- a panic, which is `none`.
use mathlib.Core.Option
use mathlib.Core.List.{append_assoc, append-nil}
use mathlib.Core.Path.{ap₂}
use disgord.Base.{
  ℕ, zero, suc, ◌-◌, ◌≡◌, refl, ◌∙◌, ap, inl, inr, List, [], ◌∷◌, ◌++◌, Option, none, some, arith,
  length, get_elem?, set, take, drop, ◌<◌, ◌≤◌, sym, length-set, Option-cases,
}

module _ {ℓ} {A : Type ℓ} where
  -- `for i := 0; i < len(a)-1; i++ { a[i] = a[i+1] }`, over the rounds left and `i`.
  unfoldable pub shift_left_loop : ℕ → ℕ → List A → Option (List A)
  shift_left_loop zero i a = some a
  shift_left_loop (suc k) i a = elim (get_elem? a (suc i)) [
    | none ↦ none
    | some x ↦ shift_left_loop k (suc i) (set a i x)
  ]

  -- The loop, and the reslice `a[:len(a)-1]` behind it.
  unfoldable pub shift_left : List A → Option (List A)
  unfolding shift_left_loop
  shift_left a = Option.map (take (length a - 1)) (shift_left_loop (length a - 1) 0 a)

  shift_left_loop-cons :
      (k i : ℕ) (y : A) (a : List A)
      → shift_left_loop k (suc i) (y ∷ a) ≡ Option.map (λ b. y ∷ b) (shift_left_loop k i a)
  unfolding shift_left_loop
  shift_left_loop-cons zero i y a = refl
  shift_left_loop-cons (suc k) i y a = elim (Option-cases (get_elem? a (suc i))) [
    | inl e ↦ ground arith
    | inr (x, e) ↦ ground (arith, shift_left_loop-cons k (suc i) y (set a i x))
  ]

  -- The last entry of `x ∷ xs`.
  abbrev last : A → List A → A
  last x [] = x
  last x (y ∷ ys) = last y ys

  shift_left_loop_lem :
      (x : A) (xs : List A) → shift_left_loop (length xs) 0 (x ∷ xs) ≡ some (xs ++ last x xs ∷ [])
  unfolding shift_left_loop
  shift_left_loop_lem x [] = refl
  shift_left_loop_lem x (y ∷ ys) =
      shift_left_loop-cons (length ys) 0 y (y ∷ ys)
      ∙ ap (Option.map (λ b. y ∷ b)) (shift_left_loop_lem y ys)

  take-length : (xs : List A) (y : A) → take (length xs) (xs ++ y ∷ []) ≡ xs
  take-length [] y = refl
  take-length (x ∷ xs) y = ap (λ b. x ∷ b) (take-length xs y)

  pub shift_left-cons : (x : A) (xs : List A) → shift_left (x ∷ xs) ≡ some xs
  unfolding shift_left
  shift_left-cons x xs =
      let one_less : suc (length xs) - 1 ≡ length xs = omega arith in
      rw (one_less, shift_left_loop_lem x xs) (ap some (take-length xs (last x xs)))

module _ {ℓ} {A : Type ℓ} where
  -- `for i := len(a)-1; i > 0; i-- { a[i] = a[i-1] }`, over `i`.
  unfoldable pub shift_right_loop : ℕ → List A → Option (List A)
  shift_right_loop zero a = some a
  shift_right_loop (suc i) a = elim (get_elem? a i) [
    | none ↦ none
    | some x ↦ shift_right_loop i (set a (suc i) x)
  ]

  overwrite_first : A → List A → Option (List A)
  overwrite_first e [] = none
  overwrite_first e (x ∷ xs) = some (e ∷ xs)

  -- The loop, and the write `a[0] = e` behind it.
  unfoldable pub push_front : A → List A → Option (List A)
  unfolding shift_right_loop overwrite_first
  push_front e a = Option.bind (shift_right_loop (length a - 1) a) (overwrite_first e)

  get_elem?-lt : (a : List A) (i : ℕ) → i < length a → (x : A) × (get_elem? a i ≡ some x)
  get_elem?-lt [] i h = elim h [ ]
  get_elem?-lt (x ∷ xs) zero h = (x, refl)
  get_elem?-lt (x ∷ xs) (suc i) h = get_elem?-lt xs i (omega arith)

  take-set : (j i : ℕ) (a : List A) (v : A) → j ≤ i → take j (set a i v) ≡ take j a
  take-set zero i a v h = refl
  take-set (suc j) i [] v h = refl
  take-set (suc j) zero (x ∷ xs) v h = elim h [ ]
  take-set (suc j) (suc i) (x ∷ xs) v h = ap (λ b. x ∷ b) (take-set j i xs v (omega arith))

  drop-set : (i : ℕ) (a : List A) (v : A) → i < length a → drop i (set a i v) ≡ v ∷ drop (suc i) a
  drop-set i [] v h = elim h [ ]
  drop-set zero (x ∷ xs) v h = refl
  drop-set (suc i) (x ∷ xs) v h = drop-set i xs v (omega arith)

  take-suc :
      (i : ℕ) (a : List A) {x : A} → get_elem? a i ≡ some x → take (suc i) a ≡ take i a ++ x ∷ []
  take-suc i [] h = absurd (ground arith)
  take-suc zero (y ∷ ys) h = ground arith
  take-suc (suc i) (y ∷ ys) h = ap (λ b. y ∷ b) (take-suc i ys h)

  drop-length : (xs : List A) → drop (length xs) xs ≡ []
  drop-length [] = refl
  drop-length (x ∷ xs) = drop-length xs

  shift_right_step :
      (i : ℕ) (x y : A) (xs : List A)
      → i < length xs
      → get_elem? (x ∷ xs) i ≡ some y
      → take i (x ∷ set xs i y) ++ drop i (set xs i y) ≡ take (suc i) (x ∷ xs) ++ drop (suc i) xs
  shift_right_step i x y xs h e =
      ap₂ ◌++◌ (take-set i (suc i) (x ∷ xs) y (omega arith)) (drop-set i xs y h)
      ∙ sym (append_assoc (take i (x ∷ xs)) (y ∷ []) (drop (suc i) xs))
      ∙ ap (λ b. b ++ drop (suc i) xs) (sym (take-suc i (x ∷ xs) e))

  shift_right_loop_lem :
      (i : ℕ) (x : A) (xs : List A)
      → i ≤ length xs
      → shift_right_loop i (x ∷ xs) ≡ some (x ∷ (take i (x ∷ xs) ++ drop i xs))
  unfolding shift_right_loop
  shift_right_loop_lem zero x xs h = refl
  shift_right_loop_lem (suc i) x xs h =
      let (y, e) = get_elem?-lt (x ∷ xs) i (omega arith) in
      rw (e, shift_right_loop)
        (shift_right_loop_lem i x (set xs i y) (rw (length-set xs i y) (omega arith))
          ∙ ap (λ b. some (x ∷ b)) (shift_right_step i x y xs h e))

  pub push_front-cons :
      (e x : A) (xs : List A) → push_front e (x ∷ xs) ≡ some (e ∷ take (length xs) (x ∷ xs))
  unfolding push_front Option.bind
  push_front-cons e x xs =
      let one_less : suc (length xs) - 1 ≡ length xs = omega arith in
      rw (one_less, shift_right_loop_lem (length xs) x xs (omega arith))
        (rw (drop-length xs, append-nil))
