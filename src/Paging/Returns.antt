-- ===== src/Paging/Returns.antt =====
-- That GetMessages (channel.go) returns, and what it asks for.
use Prim.Native.Nat.{min}
use disgord.Base.{
  ℕ, zero, suc, ◌+◌, ◌-◌, ◌*◌, ◌/◌, ◌≤◌, ◌≡◌, refl, subst, ◌≢◌, ◌⊎◌, inl, inr, Option, none, List,
  [], ◌∷◌, ◌++◌, arith, ◌==◌, if◌then◌else◌,
}
use disgord.Paging.Messages.{
  GetMessagesParams, Result, next_filter, page_loop, join_around, split_around, dispatch_filter,
  get_all, filter_default, get_messages_all, earliest_from, earliest_snowflake,
}

module _ {ℓ} {M : Type ℓ} (id : M → ℕ) where
  next_filter-limit :
      (f : GetMessagesParams) (msgs : List M)
      → (next_filter id f msgs).limit ≡ f.limit - min f.limit 100
  unfolding next_filter
  next_filter-limit f msgs = ground arith

  earliest_from_zero : (msgs : List M) → earliest_from id 0 msgs ≡ 0
  unfolding earliest_from
  earliest_from_zero [] = refl
  earliest_from_zero (m ∷ msgs) = ground (arith, earliest_from_zero msgs)

  -- No page has an earliest message: the search starts at 0, and nothing lies below it.
  pub earliest_snowflake_lem : (msgs : List M) → earliest_snowflake id msgs ≡ 0
  unfolding earliest_snowflake
  earliest_snowflake_lem msgs = earliest_from_zero msgs

  module _ (fetch : GetMessagesParams → Result (List M)) (get : ℕ → Option M) where
    page_loop-ne-none :
        (n : ℕ) (f : GetMessagesParams) (acc : List M)
        → f.limit ≤ 100 * n
        → page_loop id fetch get (suc n) f acc ≢ none
    unfolding page_loop
    page_loop-ne-none zero f acc h = ground arith
    page_loop-ne-none (suc n) f acc h = grind (
      arith,
      λ (msgs : List M). next_filter-limit f msgs,
      λ (msgs : List M). page_loop-ne-none n (next_filter id f msgs) (acc ++ msgs),
    )

    page_loop_enough :
        (f : GetMessagesParams) (acc : List M)
        → page_loop id fetch get (f.limit / 100 + 2) f acc ≢ none
    page_loop_enough f acc =
        subst (λ n. page_loop id fetch get n f acc ≢ none)
          (let e : suc (f.limit / 100 + 1) ≡ f.limit / 100 + 2 = omega arith in e)
          (page_loop-ne-none (f.limit / 100 + 1) f acc (omega arith))

    join_around-ne-none :
        (a : ℕ) (b c : Option (Result (List M)))
        → b ≢ none
        → c ≢ none
        → join_around id fetch get a b c ≢ none
    unfolding join_around
    join_around-ne-none a b c hb hc = ground arith

    split_around-ne-none :
        (recur : GetMessagesParams → Option (Result (List M))) (f : GetMessagesParams)
        → ((g : GetMessagesParams) → g.around ≡ 0 → recur g ≢ none)
        → split_around id fetch get recur f ≢ none
    unfolding split_around
    split_around-ne-none recur f h = join_around-ne-none f.around _ _ (h _ refl) (h _ refl)

    dispatch_filter-ne-none :
        (recur : GetMessagesParams → Option (Result (List M))) (f : GetMessagesParams)
        → (f.around ≡ 0) ⊎ ((g : GetMessagesParams) → g.around ≡ 0 → recur g ≢ none)
        → dispatch_filter id fetch get recur f ≢ none
    unfolding dispatch_filter
    dispatch_filter-ne-none recur f (inl h) = ground (arith, page_loop_enough f [])
    dispatch_filter-ne-none recur f (inr h) =
        ground (arith, page_loop_enough f [], split_around-ne-none recur f h)

    get_all-ne-none :
        (recur : GetMessagesParams → Option (Result (List M))) (f : GetMessagesParams)
        → (f.around ≡ 0) ⊎ ((g : GetMessagesParams) → g.around ≡ 0 → recur g ≢ none)
        → get_all id fetch get recur f ≢ none
    unfolding get_all
    get_all-ne-none recur f h = ground (
      arith,
      dispatch_filter-ne-none recur
          (record f { limit = if f.limit == 0 then filter_default else f.limit }) h,
    )

    -- GetMessages returns: the loop ends whatever the pages hold, and the calls of itself are one deep.
    pub get_messages_all-ne-none : (f : GetMessagesParams) → get_messages_all id fetch get f ≢ none
    unfolding get_messages_all
    get_messages_all-ne-none f =
        get_all-ne-none (get_all id fetch get (λ p. none)) f
          (inr (λ g h. get_all-ne-none (λ p. none) g (inl h)))
