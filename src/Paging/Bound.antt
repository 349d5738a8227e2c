-- ===== src/Paging/Bound.antt =====
-- That GetMembers (guild.go) returns, and which members it can return.
use disgord.Base.{
  ℕ, zero, suc, ◌+◌, ◌*◌, ◌/◌, ◌≤◌, ◌<◌, ◌≡◌, refl, sym, ◌∙◌, subst, ◌⊎◌, inl, inr, Option, none,
  some, List, [], ◌++◌, arith, Option-cases, length, All, All-append, length-append,
}
use disgord.Paging.Members.{
  GetMembersParams, Page, Loop, max_members, next_page, fetch_loop, first_request, get_members,
}

module _ {ℓ} {M : Type ℓ} (user_id : M → Option ℕ) where
  -- A round that goes on keeps the limit and the After of the requests, has 1000 members more, and
  -- still has members to fetch.
  next_page_lem :
      (s s' : Loop M) (ms : List M)
      → next_page user_id s ms ≡ some s'
      → (s'.params.limit ≡ s.params.limit)
        × (s'.p.after ≡ s.p.after)
        × (s'.members ≡ s.members ++ ms)
        × (length s.members + 1000 ≤ length s'.members)
        × (length s'.members < max_members s.params.limit)
  unfolding next_page
  next_page_lem s s' ms h = ground (arith, length-append s.members ms)

  module _ (fetch : GetMembersParams → Page M) where
    fetch_loop-cases :
        (n : ℕ) (s : Loop M)
        → ((page : Page M) × (fetch_loop user_id fetch (suc n) s ≡ some page)
            × (page.members ≡ s.members ++ (fetch s.p).members))
          ⊎ ((s' : Loop M) × (next_page user_id s (fetch s.p).members ≡ some s')
              × (fetch_loop user_id fetch (suc n) s ≡ fetch_loop user_id fetch n s'))
    unfolding fetch_loop
    fetch_loop-cases n s = elim (Option-cases (fetch s.p).error) [
      | inr (e, failed) ↦ inl (
        record { members = s.members ++ (fetch s.p).members; error = some e },
        ground (arith, failed),
        refl,
      )
      | inl fine ↦ elim (Option-cases (next_page user_id s (fetch s.p).members)) [
        | inl last ↦ inl (
          record { members = s.members ++ (fetch s.p).members; error = none },
          ground (arith, fine, last),
          refl,
        )
        | inr (s', more) ↦ inr (s', more, ground (arith, fine, more))
      ]
    ]

    module _ (P : M → Type 0) (a : ℕ)
        (same : (l : ℕ) → All P (fetch (record { after = a; limit = l })).members) where
      page-All : (p : GetMembersParams) → p.after ≡ a → All P (fetch p).members
      page-All p e =
          subst (λ b. All P (fetch (record { after = b; limit = p.limit })).members) (sym e)
            (same p.limit)

      abbrev Ends : ℕ → Loop M → Type ℓ
      Ends n s = (page : Page M) × (fetch_loop user_id fetch n s ≡ some page) × All P page.members

      Ends-stop :
          (n : ℕ) (s : Loop M) (page : Page M)
          → fetch_loop user_id fetch n s ≡ some page
          → page.members ≡ s.members ++ (fetch s.p).members
          → s.p.after ≡ a
          → All P s.members
          → Ends n s
      Ends-stop n s page stop eq e hs =
          (page, stop, rw eq (All-append P s.members (fetch s.p).members hs (page-All s.p e)))

      fetch_loop-Ends :
          (n : ℕ) (s : Loop M)
          → max_members s.params.limit ≤ length s.members + 1000 * n
          → s.p.after ≡ a
          → All P s.members
          → Ends (suc n) s
      fetch_loop-Ends zero s h e hs = elim (fetch_loop-cases 0 s) [
        | inl (page, stop, eq) ↦ Ends-stop 1 s page stop eq e hs
        | inr (s', next, step) ↦
            absurd (let l = next_page_lem s s' (fetch s.p).members next in omega (arith, l, h))
      ]
      fetch_loop-Ends (suc n) s h e hs = elim (fetch_loop-cases (suc n) s) [
        | inl (page, stop, eq) ↦ Ends-stop (suc (suc n)) s page stop eq e hs
        | inr (s', next, step) ↦
            let l = next_page_lem s s' (fetch s.p).members next in
            let fewer : max_members s'.params.limit ≤ length s'.members + 1000 * n =
              rw l.0 (omega (arith, l.3, h)) in
            let rest =
              fetch_loop-Ends n s' fewer (l.1 ∙ e)
                (rw l.2 (All-append P s.members (fetch s.p).members hs (page-All s.p e))) in
            (rest.0, step ∙ rest.1, rest.2)
      ]

      -- GetMembers returns, and every member that it returns is one that a request with the first After
      -- returns: no request moves on from there, however many are made.
      pub get_members-Ends :
          (limit : ℕ)
          → (page : Page M) × (get_members user_id fetch
                (some (record { after = a; limit = limit }))
              ≡ some page)
            × All P page.members
      unfolding get_members first_request
      get_members-Ends limit =
          let e : suc (max_members limit / 1000 + 1) ≡ max_members limit / 1000 + 2 = omega arith in
          let start : Loop M = record {
            params = record { after = a; limit = limit };
            p = first_request (record { after = a; limit = limit });
            members = [];
          } in
          subst (λ n. Ends n start) e
            (fetch_loop-Ends (max_members limit / 1000 + 1) start (omega arith) refl tt)
