-- ===== src/Paging/Ranges.antt =====
-- What the pages of GetMessages (channel.go) hold together: with After, and with Before.
use Prim.Native.Nat.{min}
use disgord.Base.{
  ℕ, zero, suc, ◌+◌, ◌-◌, ◌*◌, ◌/◌, ◌≤◌, ◌<◌, ◌≡◌, refl, ap, ◌∙◌, subst, ◌≢◌, inl, inr, Option,
  some, List, [], ◌++◌, arith, leb, ◌==◌, Bool-cases, length, All, All-append,
}
use disgord.Paging.Messages.{
  GetMessagesParams, Result, ok, validate, next_filter, page_loop, dispatch_filter, get_all,
  get_messages_all, latest_snowflake,
}
use disgord.Paging.Returns.{earliest_snowflake_lem}
use disgord.Paging.Pages.{AreNext, AreNext-latest, AreNext-append, All-map, latest_snowflake-bound}

module _ {ℓ} {M : Type ℓ} (id : M → ℕ) where
  module _ (fetch : GetMessagesParams → Result (List M)) (get : ℕ → Option M) where
    abbrev pub after_query : ℕ → ℕ → GetMessagesParams
    after_query a l = record { around = 0; before = 0; after = a; limit = l }

    -- What Discord documents, of a channel with `room a` messages after `a`, however many that are: a
    -- request gives the next ones after `a`, at most as many as it asks for, so that the rest of them is
    -- after the latest of these.
    abbrev pub Serves : (ℕ → ℕ) → Type ℓ
    Serves room =
        (a l : ℕ)
        → 0 < a
        → 0 < l
        → l ≤ 100
        → (ms : List M) × (fetch (after_query a l) ≡ ok ms)
          × AreNext id a (min l (room a)) ms
          × (0 < length ms → room (latest_snowflake id ms) ≡ room a - length ms)

    page_loop_stop :
        (n l : ℕ) (f : GetMessagesParams) (acc : List M)
        → f.limit ≡ 0
        → page_loop id fetch get (suc n) f acc ≡ some (ok acc)
    unfolding page_loop
    page_loop_stop n l f acc h = ground arith

    page_loop_next :
        (n : ℕ) (f : GetMessagesParams) (acc ms : List M)
        → f.limit ≢ 0
        → fetch (record f { limit = min f.limit 100 }) ≡ ok ms
        → page_loop id fetch get (suc n) f acc
          ≡ page_loop id fetch get n (next_filter id f ms) (acc ++ ms)
    unfolding page_loop
    page_loop_next n f acc ms h e = ground arith

    next_filter-after :
        (b l : ℕ) (ms : List M)
        → 0 < b
        → next_filter id (after_query b l) ms ≡ after_query (latest_snowflake id ms) (l - min l 100)
    unfolding next_filter
    next_filter-after b l ms h = ground arith

    pages_after :
        (room : ℕ → ℕ)
        → Serves room
        → (n a b k l : ℕ) (acc : List M) → 0 < a
        → a ≤ b
        → l ≤ 100 * n
        → l ≤ room b
        → AreNext id a k acc
        → All (λ m. id m ≤ b) acc
        → (ms : List M) × (page_loop id fetch get (suc n) (after_query b l) acc ≡ some (ok ms))
          × AreNext id a (k + l) ms
    pages_after room serves zero a b k l acc p q h enough hk hb = (
      acc,
      page_loop_stop 0 l (after_query b l) acc (omega arith),
      (let e : length acc ≡ k + l = omega (arith, hk.0, h) in e, hk.1, hk.2),
    )
    pages_after room serves (suc n) a b k l acc p q h enough hk hb = elim (Bool-cases (l == 0)) [
      | inl z ↦ (
        acc,
        page_loop_stop (suc n) l (after_query b l) acc (ground arith),
        (let e : length acc ≡ k + l = ground (arith, hk.0) in e, hk.1, hk.2),
      )
      | inr nz ↦
          let (ms, got, next, rest_of) =
            serves b (min l 100) (omega arith) (ground arith) (omega arith) in
          let full : AreNext id b (min l 100) ms =
            let size : length ms ≡ min l 100 = omega (arith, next.0) in (size, next.1, next.2) in
          let b' : ℕ = latest_snowflake id ms in
          let grows : b ≤ b' = AreNext-latest id b (min l 100) ms full (ground arith) in
          let left : room b' ≡ room b - length ms = rest_of (ground (arith, full.0)) in
          let rest =
            pages_after room serves n a b' (k + min l 100) (l - min l 100) (acc ++ ms) p
              (omega arith) (omega arith) (omega (arith, left, full.0))
              (AreNext-append id a b k (min l 100) acc ms q hk hb full)
              (All-append (λ m. id m ≤ b') acc ms
                (All-map id (λ m. id m ≤ b) (λ m. id m ≤ b') (λ m i. omega arith) acc hb)
                (latest_snowflake-bound id ms)) in
          let e : (k + min l 100) + (l - min l 100) ≡ k + l = omega arith in
          (
            rest.0,
            page_loop_next (suc n) (after_query b l) acc ms (ground arith) got
                ∙ ap (λ f. page_loop id fetch get (suc n) f (acc ++ ms))
                    (next_filter-after b l ms (omega arith))
                ∙ rest.1,
            subst (λ t. AreNext id a t rest.0) e rest.2,
          )
    ]

    -- With After, in a channel that serves its messages as Discord documents and has at least as many
    -- after After as the limit says, GetMessages returns exactly so many, all later than After and each
    -- once, however many requests that takes.
    pub get_messages_all_after :
        (room : ℕ → ℕ) (a l : ℕ)
        → Serves room
        → 0 < a
        → 0 < l
        → l ≤ room a
        → (ms : List M) × (get_messages_all id fetch get (after_query a l) ≡ some (ok ms))
          × AreNext id a l ms
    unfolding get_messages_all get_all dispatch_filter validate
    get_messages_all_after room a l serves p q enough = elim (Bool-cases (leb l 100)) [
      | inl small ↦
          let (ms, got, next, rest_of) = serves a l p q (ground arith) in
          let size : length ms ≡ l = omega (arith, next.0) in
          (ms, ground (arith, got), (size, next.1, next.2))
      | inr big ↦
          let n : ℕ = l / 100 + 1 in
          let run =
            pages_after room serves n a a 0 l [] p (omega arith) (omega arith) enough (refl, tt, tt)
              tt in
          let e : suc n ≡ l / 100 + 2 = omega arith in
          let fueled : page_loop id fetch get (l / 100 + 2) (after_query a l) [] ≡ some (ok run.0) =
            subst (λ t. page_loop id fetch get t (after_query a l) [] ≡ some (ok run.0)) e run.1 in
          let z : 0 + l ≡ l = omega arith in
          (run.0, ground (arith, fueled), subst (λ t. AreNext id a t run.0) z run.2)
    ]

    abbrev before_query : ℕ → ℕ → GetMessagesParams
    before_query b l = record { around = 0; before = b; after = 0; limit = l }

    next_filter-before :
        (b l : ℕ) (ms : List M)
        → next_filter id (before_query b l) ms ≡ before_query 0 (l - min l 100)
    unfolding next_filter
    next_filter-before b l ms = rw (earliest_snowflake_lem id ms) refl

    two_pages :
        (n b l : ℕ) (first second : List M)
        → 100 < l
        → l ≤ 200
        → fetch (before_query b 100) ≡ ok first
        → fetch (before_query 0 (l - 100)) ≡ ok second
        → page_loop id fetch get (suc (suc (suc n))) (before_query b l) []
          ≡ some (ok (first ++ second))
    two_pages n b l first second h k e1 e2 =
        let m1 : min l 100 ≡ 100 = omega arith in
        let m2 : min (l - min l 100) 100 ≡ l - 100 = omega arith in
        page_loop_next (suc (suc n)) (before_query b l) [] first (omega arith) (rw m1 e1)
        ∙ ap (λ f. page_loop id fetch get (suc (suc n)) f first) (next_filter-before b l first)
        ∙ page_loop_next (suc n) (before_query 0 (l - min l 100)) first second (omega arith)
            (rw m2 e2)
        ∙ ap (λ f. page_loop id fetch get (suc n) f (first ++ second))
            (next_filter-before 0 (l - min l 100) second)
        ∙ page_loop_stop n 0 (before_query 0 _) (first ++ second) (omega arith)

    -- Without After and with a limit above 100 (and at most 200, which takes two requests), the second
    -- request has no bound: GetMessages returns the page before Before, then the newest messages.
    pub get_messages_all_before :
        (b l : ℕ) (first second : List M)
        → 100 < l
        → l ≤ 200
        → fetch (before_query b 100) ≡ ok first
        → fetch (before_query 0 (l - 100)) ≡ ok second
        → get_messages_all id fetch get (before_query b l) ≡ some (ok (first ++ second))
    unfolding get_messages_all get_all dispatch_filter validate
    get_messages_all_before b l first second h k e1 e2 =
        let e : suc (suc (suc (l / 100 - 1))) ≡ l / 100 + 2 = omega arith in
        let run : page_loop id fetch get (l / 100 + 2) (before_query b l) []
            ≡ some (ok (first ++ second)) =
          subst (λ t. page_loop id fetch get t (before_query b l) [] ≡ some (ok (first ++ second)))
            e (two_pages (l / 100 - 1) b l first second h k e1 e2) in
        ground (arith, run)
