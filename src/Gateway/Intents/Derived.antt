-- ===== src/Gateway/Intents/Derived.antt =====
-- The intents that a shard identifies itself with (eventclient.go, client.go), bit by bit.
use Prim.Native.Nat.{bit_and, bit_or, bit_xor, min, max, differ}
use disgord.Base.{
  ℕ, zero, suc, ◌<◌, ◌≡◌, refl, sym, ap, ◌∙◌, ◌↔◌, ◌⊎◌, inl, inr, List, [], ◌∷◌, none, some, false,
  ltb, if◌then◌else◌, String, arith, get_elem?, Bool-cases, ℕ_discrete,
}
use disgord.Base.Bits.{bit, bit-lt, bit-bit_and, bit-bit_or, bit-bit_xor, bit-zero, some_bit}
use disgord.Gateway.Intents.{
  event_to_intent, is_among, add_intents, dm_intents, accept_intents, client_intents,
}

-- An event that is wanted has the bit.
abbrev pub Wants : ℕ → List String → List String → Type 0
Wants i ignored events =
    (n : ℕ) × (e : String) × (get_elem? events n ≡ some e)
    × (is_among e ignored ≡ false)
    × (bit i (event_to_intent e false) ≡ 1)

abbrev next_intents : List String → String → ℕ → ℕ
next_intents ignored e x = if is_among e ignored then x else bit_or x (event_to_intent e false)

add_intents_has :
    (i : ℕ) (ignored events : List String) (x : ℕ)
    → bit i (add_intents ignored events x) ≡ 1
    → (bit i x ≡ 1) ⊎ Wants i ignored events
unfolding add_intents
add_intents_has i ignored [] x h = inl h
add_intents_has i ignored (e ∷ events) x h =
    elim (add_intents_has i ignored events (next_intents ignored e x) h) [
      | inr (n, e', at, fine, has) ↦ inr (suc n, e', at, fine, has)
      | inl now ↦ elim (Bool-cases (is_among e ignored)) [
        | inl skip ↦ inl (ground (arith, now, skip))
        | inr fine ↦
            let intent : ℕ = event_to_intent e false in
            elim (ℕ_discrete (bit i intent) 1) [
              | yes has ↦ inr (0, e, refl, fine, has)
              | no lacks ↦
                  inl (ground (arith, now, fine, bit-bit_or i x intent, bit-lt i intent, lacks))
            ]
      ]
    ]

add_intents_keeps :
    (i : ℕ) (ignored events : List String) (x : ℕ)
    → bit i x ≡ 1
    → bit i (add_intents ignored events x) ≡ 1
unfolding add_intents
add_intents_keeps i ignored [] x h = h
add_intents_keeps i ignored (e ∷ events) x h =
    let intent : ℕ = event_to_intent e false in
    add_intents_keeps i ignored events (next_intents ignored e x)
      (ground (arith, h, bit-bit_or i x intent, bit-lt i intent))

add_intents_takes :
    (i : ℕ) (ignored events : List String) (x n : ℕ) (e : String)
    → get_elem? events n ≡ some e
    → is_among e ignored ≡ false
    → bit i (event_to_intent e false) ≡ 1
    → bit i (add_intents ignored events x) ≡ 1
unfolding add_intents
add_intents_takes i ignored [] x n e at fine has = absurd (ground (arith, at))
add_intents_takes i ignored (e' ∷ events) x zero e at fine has =
    let same : e' ≡ e = ground (arith, at) in
    add_intents_keeps i ignored events (next_intents ignored e' x)
      (rw same (ground (arith, fine, has, bit-bit_or i x (event_to_intent e false), bit-lt i x)))
add_intents_takes i ignored (e' ∷ events) x (suc n) e at fine has =
    add_intents_takes i ignored events (next_intents ignored e' x) n e at fine has

-- what createClient looks at
abbrev joined : ℕ → ℕ → ℕ
joined intents dm = if ltb 0 intents then bit_or dm intents else dm

bit-joined : (i a b : ℕ) → bit i (joined a b) ≡ max (bit i a) (bit i b)
bit-joined i a b = elim (Bool-cases (ltb 0 a)) [
  | inl some_a ↦ ground (arith, some_a, bit-bit_or i b a)
  | inr none_a ↦
      let z : a ≡ 0 = ground (arith, none_a) in ground (arith, none_a, ap (bit i) z, bit-zero i)
]

-- A bit of a number that the check leaves is one of direct messages, and the other way round.
valid-bit : (i x : ℕ) → bit_xor x (bit_and x dm_intents) ≡ 0 → bit i x ≡ 1 → bit i dm_intents ≡ 1
valid-bit i x h k = ground (
  arith,
  h,
  k,
  bit-bit_xor i x (bit_and x dm_intents),
  bit-bit_and i x dm_intents,
  bit-zero i,
  bit-lt i dm_intents,
)

-- The bit is asked for in one of the two fields.
abbrev pub Asks : ℕ → ℕ → ℕ → Type 0
Asks i intents dm = (bit i intents ≡ 1) ⊎ (bit i dm ≡ 1)

joined-Asks : (i a b : ℕ) → bit i (joined a b) ≡ 1 → Asks i a b
joined-Asks i a b h = elim (ℕ_discrete (bit i a) 1) [
  | yes has ↦ inl has
  | no lacks ↦ inr (ground (arith, h, lacks, bit-joined i a b, bit-lt i a))
]

Asks-joined : (i a b : ℕ) → Asks i a b → bit i (joined a b) ≡ 1
Asks-joined i a b (inl h) = ground (arith, h, bit-joined i a b, bit-lt i b)
Asks-joined i a b (inr h) = ground (arith, h, bit-joined i a b, bit-lt i a)

-- the bits that are not allowed
abbrev excess : ℕ → ℕ → ℕ
excess a b = bit_xor (joined a b) (bit_and (joined a b) dm_intents)

bit-excess : (i a b : ℕ) → bit i dm_intents ≡ 0 → Asks i a b → bit i (excess a b) ≡ 1
bit-excess i a b d h =
    let x : ℕ = joined a b in
    ground (
      arith,
      d,
      Asks-joined i a b h,
      bit-bit_xor i x (bit_and x dm_intents),
      bit-bit_and i x dm_intents,
    )

differ-min : (x y : ℕ) → x < 2 → y < 2 → differ x (min x y) ≡ 1 → (y ≡ 0) × (x ≡ 1)
differ-min zero y p q h = absurd (omega (arith, h))
differ-min (suc zero) zero p q h = (refl, refl)
differ-min (suc zero) (suc zero) p q h = absurd (omega (arith, h))
differ-min (suc zero) (suc (suc y)) p q h = absurd (omega (arith, q))
differ-min (suc (suc x)) y p q h = absurd (omega (arith, p))

excess-bit :
    (i a b : ℕ) → bit i (excess a b) ≡ 1 → (bit i dm_intents ≡ 0) × (bit i (joined a b) ≡ 1)
excess-bit i a b h =
    let x : ℕ = joined a b in
    differ-min (bit i x) (bit i dm_intents) (bit-lt i x) (bit-lt i dm_intents) (
      ap (differ (bit i x)) (sym (bit-bit_and i x dm_intents))
      ∙ sym (bit-bit_xor i x (bit_and x dm_intents))
      ∙ h)

-- createClient refuses the intents exactly if a bit is asked for, in `Intents` or in `DMIntents`, that
-- is none of the three for direct messages.
accept_intents_iff :
    (intents dm : ℕ)
    → (accept_intents intents dm ≡ none) ↔ ((i : ℕ) × (bit i dm_intents ≡ 0) × Asks i intents dm)
unfolding accept_intents
accept_intents_iff a b = (
  (λ refused.
      let k = some_bit (excess a b) (excess a b) (omega arith) (ground (arith, refused)) in
      let l = excess-bit k.0 a b k.1 in (k.0, l.0, joined-Asks k.0 a b l.1)),
  (λ h.
      let over : 0 < excess a b =
        let e = bit-excess h.0 a b h.1 h.2 in
        elim (ℕ_discrete (excess a b) 0) [
          | yes z ↦ absurd (omega (arith, e, ap (bit h.0) z, bit-zero h.0))
          | no n ↦ omega (arith, n)
        ] in
      ground (arith, over)),
)

add_intents_why :
    (i : ℕ) (rejected events : List String) (a b : ℕ)
    → ((bit i dm_intents ≡ 1) × Asks i a b) ⊎ Wants i rejected events
    → bit i (add_intents rejected events (joined a b)) ≡ 1
add_intents_why i rejected events a b (inl (d, asks)) =
    add_intents_keeps i rejected events (joined a b) (Asks-joined i a b asks)
add_intents_why i rejected events a b (inr (n, e, at, ok, has)) =
    add_intents_takes i rejected events (joined a b) n e at ok has

-- The intents of a shard, if createClient accepts the configuration, have just the bits that are asked
-- for, which are bits of direct messages, and those of the events that are not rejected, whatever the
-- order in which the events are listed.
pub client_intents_lem :
    (events rejected : List String) (intents dm x i : ℕ)
    → client_intents events rejected intents dm ≡ some x
    → (bit i x ≡ 1) ↔ (((bit i dm_intents ≡ 1) × Asks i intents dm) ⊎ Wants i rejected events)
unfolding client_intents accept_intents
client_intents_lem events rejected a b x i h = elim (Bool-cases (ltb 0 (excess a b))) [
  | inl refused ↦ absurd (ground (arith, h, refused))
  | inr fine ↦
      let z : excess a b ≡ 0 = ground (arith, fine) in
      let same : add_intents rejected events (joined a b) ≡ x = ground (arith, h, fine) in
      (
        (λ has. elim (add_intents_has i rejected events (joined a b) (ap (bit i) same ∙ has)) [
          | inl here ↦ inl (valid-bit i (joined a b) z here, joined-Asks i a b here)
          | inr wants ↦ inr wants
        ]),
        (λ why. sym (ap (bit i) same) ∙ add_intents_why i rejected events a b why),
      )
]
