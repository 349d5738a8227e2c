-- ===== src/Paging/Pages.antt =====
-- Pages of messages: their latest message, and pages that follow one another.
use disgord.Base.{
  ℕ, ◌+◌, ◌≤◌, ◌<◌, ◌≡◌, ◌≢◌, List, [], ◌∷◌, ◌++◌, arith, ltb, if◌then◌else◌, length, All,
  All-append, length-append,
}
use disgord.Paging.Messages.{latest_from, latest_snowflake}

module _ {ℓ} {M : Type ℓ} (id : M → ℕ) where
  -- No two entries have the same id.
  abbrev pub Distinct : List M → Type ℓ
  Distinct [] = Unit
  Distinct (m ∷ ms) = All (λ m'. id m ≢ id m') ms × Distinct ms

  latest_from-ge : (l : ℕ) (ms : List M) → l ≤ latest_from id l ms
  unfolding latest_from
  latest_from-ge l [] = omega arith
  latest_from-ge l (m ∷ ms) = ground (arith, latest_from-ge (if ltb l (id m) then id m else l) ms)

  latest_from-bound : (l : ℕ) (ms : List M) → All (λ m. id m ≤ latest_from id l ms) ms
  unfolding latest_from
  latest_from-bound l [] = tt
  latest_from-bound l (m ∷ ms) = ground (
    arith,
    latest_from-ge (if ltb l (id m) then id m else l) ms,
    latest_from-bound (if ltb l (id m) then id m else l) ms,
  )

  All-above :
      (m : M) (b : ℕ) (ys : List M) → id m ≤ b → All (λ y. b < id y) ys → All (λ y. id m ≢ id y) ys
  All-above m b [] h k = tt
  All-above m b (y ∷ ys) h k = ground (arith, All-above m b ys h k.1)

  Distinct-append :
      (b : ℕ) (xs ys : List M)
      → Distinct xs
      → Distinct ys
      → All (λ x. id x ≤ b) xs
      → All (λ y. b < id y) ys
      → Distinct (xs ++ ys)
  Distinct-append b [] ys dx dy lx ly = dy
  Distinct-append b (x ∷ xs) ys dx dy lx ly = (
    All-append (λ m'. id x ≢ id m') xs ys dx.0 (All-above x b ys lx.0 ly),
    Distinct-append b xs ys dx.1 dy lx.1 ly,
  )

  pub All-map : (P Q : M → Type 0) → ((m : M) → P m → Q m) → (xs : List M) → All P xs → All Q xs
  All-map P Q f [] h = tt
  All-map P Q f (x ∷ xs) h = (f x h.0, All-map P Q f xs h.1)

  -- `l` messages, all later than `a`, each once.
  abbrev pub AreNext : ℕ → ℕ → List M → Type ℓ
  AreNext a l ms = (length ms ≡ l) × All (λ m. a < id m) ms × Distinct ms

  pub latest_snowflake-bound : (ms : List M) → All (λ m. id m ≤ latest_snowflake id ms) ms
  unfolding latest_snowflake
  latest_snowflake-bound ms = latest_from-bound 0 ms

  pub AreNext-latest : (a l : ℕ) (ms : List M) → AreNext a l ms → 0 < l → a ≤ latest_snowflake id ms
  unfolding latest_snowflake latest_from
  AreNext-latest a l [] h p = absurd (omega (arith, h.0))
  AreNext-latest a l (m ∷ ms) h p =
      ground (arith, h.1.0, latest_from-ge (if ltb 0 (id m) then id m else 0) ms)

  -- A page behind what has been read.
  pub AreNext-append :
      (a b k l : ℕ) (xs ys : List M)
      → a ≤ b
      → AreNext a k xs
      → All (λ m. id m ≤ b) xs
      → AreNext b l ys
      → AreNext a (k + l) (xs ++ ys)
  AreNext-append a b k l xs ys h hx lx hy = (
    omega (arith, length-append xs ys, hx.0, hy.0),
    All-append (λ m. a < id m) xs ys hx.1
        (All-map (λ m. b < id m) (λ m. a < id m) (λ m k. omega arith) ys hy.1),
    Distinct-append b xs ys hx.2 hy.2 lx hy.1,
  )
