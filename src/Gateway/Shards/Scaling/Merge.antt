-- ===== src/Gateway/Shards/Scaling/Merge.antt =====
-- What merging does to the packets that wait.
use mathlib.Core.List.{append_assoc, append-nil}
use disgord.Base.{
  ℕ, zero, suc, ◌≤◌, ◌≡◌, refl, sym, ◌∙◌, ap, List, [], ◌∷◌, ◌++◌, Option, none, some, arith,
  length, Option-cases, inl, inr,
}
use disgord.Gateway.Command.{ClientPacket, RequestGuildMembersPayload}
use disgord.Gateway.Shards.Scaling.{request_of, absorb, merge_from, merge_requests, with_request}

-- The requests for members among the packets, and the other packets.
abbrev pub requests : List (Option ClientPacket) → List RequestGuildMembersPayload
requests [] = []
requests (x ∷ xs) = elim (request_of x) [ none ↦ requests xs | some r ↦ r ∷ requests xs ]

abbrev pub present : Option ClientPacket → List ClientPacket
present none = []
present (some m) = m ∷ []

abbrev pub others : List (Option ClientPacket) → List ClientPacket
others [] = []
others (x ∷ xs) = elim (request_of x) [ none ↦ present x ++ others xs | some r ↦ others xs ]

-- One request: the first, with the guilds of all.
abbrev pub joined : List RequestGuildMembersPayload → List ℕ
joined [] = []
joined (r ∷ rs) = r.guild_ids ++ joined rs

abbrev pub as_one : List RequestGuildMembersPayload → List RequestGuildMembersPayload
as_one [] = []
as_one (r ∷ rs) = record r { guild_ids = r.guild_ids ++ joined rs } ∷ []

module _ (x : Option ClientPacket) (xs : List (Option ClientPacket)) (e : request_of x ≡ none) where
  requests_miss : requests (x ∷ xs) ≡ requests xs
  requests_miss = ground (arith, e)

  others_miss : others (x ∷ xs) ≡ present x ++ others xs
  others_miss = ground (arith, e)

  absorb_miss :
      (r : RequestGuildMembersPayload) → absorb r (x ∷ xs) ≡ ((absorb r xs).0, x ∷ (absorb r xs).1)
  unfolding absorb
  absorb_miss r = ground (arith, e)

  merge_miss : (n : ℕ) → merge_from (suc n) (x ∷ xs) ≡ x ∷ merge_from n xs
  unfolding merge_from
  merge_miss n = ground (arith, e)

module _ (x : Option ClientPacket) (xs : List (Option ClientPacket))
    (q : RequestGuildMembersPayload) (e : request_of x ≡ some q) where
  requests_hit : requests (x ∷ xs) ≡ q ∷ requests xs
  requests_hit = ground (arith, e)

  others_hit : others (x ∷ xs) ≡ others xs
  others_hit = ground (arith, e)

  absorb_hit :
      (r : RequestGuildMembersPayload)
      → let (r', xs') = absorb (record r { guild_ids = r.guild_ids ++ q.guild_ids }) xs in
        absorb r (x ∷ xs) ≡ (r', none ∷ xs')
  unfolding absorb
  absorb_hit r = ground (arith, e)

  merge_hit :
      (n : ℕ)
      → let (r', xs') = absorb q xs in
        merge_from (suc n) (x ∷ xs) ≡ with_request x r' ∷ merge_from n xs'
  unfolding merge_from
  merge_hit n = ground (arith, e)

requests-none : (xs : List (Option ClientPacket)) → requests (none ∷ xs) ≡ requests xs
unfolding request_of
requests-none xs = refl

others-none : (xs : List (Option ClientPacket)) → others (none ∷ xs) ≡ others xs
unfolding request_of
others-none xs = refl

record Absorbed (r : RequestGuildMembersPayload) (xs : List (Option ClientPacket))
    (o : RequestGuildMembersPayload × List (Option ClientPacket)) : Type 0 where
  whole : o.0 ≡ record r { guild_ids = r.guild_ids ++ joined (requests xs) }
  struck : requests o.1 ≡ []
  kept : others o.1 ≡ others xs
  same_length : length o.1 ≡ length xs

absorb-Absorbed :
    (r : RequestGuildMembersPayload) (xs : List (Option ClientPacket)) → Absorbed r xs (absorb r xs)
unfolding absorb
absorb-Absorbed r [] = record {
  whole = ap (λ ids. record r { guild_ids = ids }) (sym (append-nil r.guild_ids));
  struck = refl;
  kept = refl;
  same_length = refl;
}
absorb-Absorbed r (x ∷ xs) = elim (Option-cases (request_of x)) [
  | inl e ↦
      let a = absorb-Absorbed r xs in
      rw (absorb_miss x xs e r) (record {
        whole = rw (requests_miss x xs e) a.whole;
        struck = requests_miss x _ e ∙ a.struck;
        kept = others_miss x _ e ∙ ap (λ ms. present x ++ ms) a.kept ∙ sym (others_miss x xs e);
        same_length = ap suc a.same_length;
      })
  | inr (q, e) ↦
      let a = absorb-Absorbed (record r { guild_ids = r.guild_ids ++ q.guild_ids }) xs in
      rw (absorb_hit x xs q e r) (record {
        whole =
            a.whole
            ∙ ap (λ ids. record r { guild_ids = ids })
                (append_assoc r.guild_ids q.guild_ids (joined (requests xs))
                  ∙ ap (λ rs. r.guild_ids ++ joined rs) (sym (requests_hit x xs q e)));
        struck = requests-none _ ∙ a.struck;
        kept = others-none _ ∙ a.kept ∙ sym (others_hit x xs q e);
        same_length = ap suc a.same_length;
      })
]

with_request_lem :
    (x : Option ClientPacket) (r r' : RequestGuildMembersPayload)
    → request_of x ≡ some r
    → request_of (with_request x r') ≡ some r'
unfolding request_of with_request
with_request_lem none r r' e = absurd (ground arith)
with_request_lem (some m) r r' e = ground arith

record Merged (xs ys : List (Option ClientPacket)) : Type 0 where
  one : requests ys ≡ as_one (requests xs)
  same : others ys ≡ others xs

merge_from-Merged :
    (n : ℕ) (xs : List (Option ClientPacket)) → length xs ≤ n → Merged xs (merge_from n xs)
merge_from-Merged n [] h = record {
  one = unfold merge_from in refl;
  same = unfold merge_from in refl;
}
merge_from-Merged zero (x ∷ xs) h = absurd (omega arith)
merge_from-Merged (suc n) (x ∷ xs) h = elim (Option-cases (request_of x)) [
  | inl e ↦
      let m = merge_from-Merged n xs (omega arith) in
      rw (merge_miss x xs e n) (record {
        one = requests_miss x _ e ∙ m.one ∙ ap as_one (sym (requests_miss x xs e));
        same = others_miss x _ e ∙ ap (λ ms. present x ++ ms) m.same ∙ sym (others_miss x xs e);
      })
  | inr (r, e) ↦
      let a = absorb-Absorbed r xs in
      let (r', xs') = absorb r xs in
      let m = merge_from-Merged n xs' (omega (arith, a.same_length)) in
      let w = with_request_lem x r r' e in
      rw (merge_hit x xs r e n) (record {
        one =
            requests_hit _ _ r' w
            ∙ ap (λ rs. r' ∷ rs) (m.one ∙ ap as_one a.struck)
            ∙ ap (λ q. q ∷ []) a.whole
            ∙ ap as_one (sym (requests_hit x xs r e));
        same = others_hit _ _ r' w ∙ m.same ∙ a.kept ∙ sym (others_hit x xs r e);
      })
]

-- However many requests for members wait, just one is left of them: the first, with the guilds of
-- all in their order, and with the query, the limit and the nonce of the first, whatever those of
-- the others were. The packets of other kinds stay, in their order.
pub merge_requests_lem :
    (xs : List (Option ClientPacket))
    → (requests (merge_requests xs) ≡ as_one (requests xs))
      × (others (merge_requests xs) ≡ others xs)
unfolding merge_requests
merge_requests_lem xs = let m = merge_from-Merged (length xs) xs (omega arith) in (m.one, m.same)
