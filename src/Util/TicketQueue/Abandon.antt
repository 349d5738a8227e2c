-- ===== src/Util/TicketQueue/Abandon.antt =====
-- What `Delete` does to those who still wait. The source cuts the line before the ticket instead
-- of taking the ticket out, unless the ticket is the last in line.
use disgord.Base.{
  ℕ, zero, suc, ◌+◌, ◌-◌, ◌≡◌, ◌≢◌, refl, ap, ◌⊎◌, inl, inr, List, [], ◌∷◌, ◌++◌, none, some, Bool,
  arith, length, take, drop, All, length-append, Bool-cases, Option-cases, ◌==◌,
}
use disgord.Util.TicketQueue.{
  TicketQueue, Call, issue, ask, abandon, new_ticket, next, delete, index_of, cut_at, step, granted,
  all_granted,
}

index_of_lem :
    (t i : ℕ) (pre post : List ℕ)
    → All (λ u. u ≢ t) pre
    → index_of t i (pre ++ t ∷ post) ≡ some (i + length pre)
unfolding index_of
index_of_lem t i [] post away = ground arith
index_of_lem t i (u ∷ pre) post away =
    ground (arith, index_of_lem t (suc i) pre post away.1, away.0)

index_of-none : (t i : ℕ) (ts : List ℕ) → All (λ u. u ≢ t) ts → index_of t i ts ≡ none
unfolding index_of
index_of-none t i [] away = refl
index_of-none t i (u ∷ ts) away = ground (arith, index_of-none t (suc i) ts away.1, away.0)

drop-length : (pre post : List ℕ) → drop (length pre) (pre ++ post) ≡ post
drop-length [] post = refl
drop-length (u ∷ pre) post = drop-length pre post

drop-suc-length :
    (pre : List ℕ) (t : ℕ) (post : List ℕ) → drop (suc (length pre)) (pre ++ t ∷ post) ≡ post
drop-suc-length [] t post = refl
drop-suc-length (u ∷ pre) t post = drop-suc-length pre t post

take-length : (pre post : List ℕ) → take (length pre) (pre ++ post) ≡ pre
take-length [] post = refl
take-length (u ∷ pre) post = ap (λ ts. u ∷ ts) (take-length pre post)

-- A ticket that is not in line is ignored.
delete_absent : (t : ℕ) (q : TicketQueue) → All (λ u. u ≢ t) q.tickets → delete t q ≡ q
unfolding delete
delete_absent t q away = rw (index_of-none t 0 q.tickets away, delete)

cut_at_last : (t : ℕ) (pre : List ℕ) → cut_at (pre ++ t ∷ []) (some (0 + length pre)) ≡ pre
unfolding cut_at
cut_at_last t pre = ground (arith, length-append pre (t ∷ []), take-length pre (t ∷ []))

cut_at_inner :
    (t v : ℕ) (pre post : List ℕ)
    → cut_at (pre ++ t ∷ v ∷ post) (some (0 + length pre)) ≡ (t ∷ v ∷ post) ++ (v ∷ post)
unfolding cut_at
cut_at_inner t v pre post = ground (
  arith,
  length-append pre (t ∷ v ∷ post),
  drop-length pre (t ∷ v ∷ post),
  drop-suc-length pre t (v ∷ post),
)

-- The line that `Delete` leaves of `pre`, the ticket and `post`.
abbrev pub line_without : ℕ → List ℕ → List ℕ → List ℕ
line_without t pre [] = pre
line_without t pre (v ∷ rest) = t ∷ v ∷ rest ++ v ∷ rest

-- The line before the call is `pre`, the ticket and `post`, with no other copy of the ticket in
-- `pre`. If the ticket is the last, it is taken out and the others keep their places.
-- Otherwise (the bug) all who stood before it are lost, the ticket itself is at the head, and
-- those behind it are in line twice.
delete_lem :
    (t n : ℕ) (pre post : List ℕ)
    → All (λ u. u ≢ t) pre
    → (delete t (record { tickets = pre ++ t ∷ post; next_ticket = n })).tickets
      ≡ line_without t pre post
unfolding delete
delete_lem t n pre [] away = rw (index_of_lem t 0 pre [] away) (cut_at_last t pre)
delete_lem t n pre (v ∷ rest) away =
    rw (index_of_lem t 0 pre (v ∷ rest) away) (cut_at_inner t v pre rest)

-- The ticket is one of those that were given up.
abbrev pub IsIn : ℕ → List ℕ → Type 0
IsIn t [] = ⊥
IsIn t (u ∷ us) = (u ≡ t) ⊎ IsIn t us

abbrev pub IsAway : ℕ → List ℕ → Type 0
IsAway t us = All (λ u. u ≢ t) us

-- Who has given up makes no more calls.
abbrev pub IsHonest : List ℕ → List Call → Type 0
IsHonest gone [] = Unit
IsHonest gone (issue ∷ cs) = IsHonest gone cs
IsHonest gone (ask t free ∷ cs) = IsAway t gone × IsHonest gone cs
IsHonest gone (abandon t ∷ cs) = IsAway t gone × IsHonest (t ∷ gone) cs

-- The head of the line is a ticket that was given up.
abbrev pub IsStuck : List ℕ → List ℕ → Type 0
IsStuck gone [] = ⊥
IsStuck gone (u ∷ us) = IsIn u gone

ne_of_away : {t u : ℕ} (gone : List ℕ) → IsAway t gone → IsIn u gone → u ≢ t
ne_of_away [] away m = absurd m
ne_of_away (v ∷ gone) away (inl e) = ground arith
ne_of_away (v ∷ gone) away (inr m) = ne_of_away gone away.1 m

index_of-eq-some :
    (t i : ℕ) (ts : List ℕ) {k : ℕ}
    → index_of t i ts ≡ some k
    → (j : ℕ) × (rest : List ℕ) × (k ≡ i + j) × (drop j ts ≡ t ∷ rest)
unfolding index_of
index_of-eq-some t i [] e = absurd (ground arith)
index_of-eq-some t i (u ∷ ts) {k = k} e = elim (Bool-cases (u == t)) [
  | inl hit ↦ (0, ts, ground arith, ground arith)
  | inr miss ↦
      let (j, rest, p, q) = index_of-eq-some t (suc i) ts {k = k} (rw miss at e) in
      (suc j, rest, omega arith, q)
]

append-IsStuck : (gone us vs : List ℕ) → IsStuck gone us → IsStuck gone (us ++ vs)
append-IsStuck gone [] vs m = absurd m
append-IsStuck gone (u ∷ us) vs m = m

cut_suc :
    (t u : ℕ) (us : List ℕ) (j : ℕ) (rest gone : List ℕ)
    → IsIn u gone
    → drop j us ≡ t ∷ rest
    → IsStuck (t ∷ gone) (cut_at (u ∷ us) (some (suc j)))
unfolding cut_at
cut_suc t u us j rest gone m q = elim (Bool-cases (suc j == length (u ∷ us) - 1)) [
  | inl e ↦ rw e (inr m)
  | inr e ↦ rw (e, q) (inl refl)
]

cut_at-IsStuck :
    (t : ℕ) (gone : List ℕ) (u : ℕ) (us : List ℕ)
    → IsIn u gone
    → u ≢ t
    → IsStuck (t ∷ gone) (cut_at (u ∷ us) (index_of t 0 (u ∷ us)))
cut_at-IsStuck t gone u us m ne = elim (Option-cases (index_of t 0 (u ∷ us))) [
  | inl e ↦ rw e (unfold cut_at in inr m)
  | inr (k, e) ↦ rw e (found k (index_of-eq-some t 0 (u ∷ us) e))
]
  where
    found :
        (k : ℕ)
        → ((j : ℕ) × (rest : List ℕ) × (k ≡ 0 + j) × (drop j (u ∷ us) ≡ t ∷ rest))
        → IsStuck (t ∷ gone) (cut_at (u ∷ us) (some k))
    found k (zero, rest, p, q) = absurd (ne (ground arith))
    found k (suc j, rest, p, q) =
        let at : k ≡ suc j = omega arith in rw at (cut_suc t u us j rest gone m q)

-- One call at a stuck line lets nobody through, and the line stays stuck.
abbrev StaysStuck : Call → List Call → List ℕ → TicketQueue → Type 0
StaysStuck c cs gone q =
    (gone' : List ℕ) × (granted c q ≡ []) × IsHonest gone' cs × IsStuck gone' (step c q).tickets

ask_other :
    (t : ℕ) (free : Bool) (u : ℕ) (us : List ℕ) (n : ℕ)
    → u ≢ t
    → let q : TicketQueue = record { tickets = u ∷ us; next_ticket = n } in
      (step (ask t free) q ≡ q) × (granted (ask t free) q ≡ [])
unfolding step granted next
ask_other t free u us n other = ground arith

step-IsStuck :
    (c : Call) (cs : List Call) (gone : List ℕ) (u : ℕ) (us : List ℕ) (n : ℕ)
    → IsHonest gone (c ∷ cs)
    → IsIn u gone
    → StaysStuck c cs gone (record { tickets = u ∷ us; next_ticket = n })
step-IsStuck issue cs gone u us n w m = unfold granted step new_ticket in (gone, refl, w, m)
step-IsStuck (ask t free) cs gone u us n w m =
    let (same, nobody) = ask_other t free u us n (ne_of_away gone w.0 m) in
    (gone, nobody, w.1, rw same m)
step-IsStuck (abandon t) cs gone u us n w m =
    unfold granted step delete in
    (t ∷ gone, refl, w.1, cut_at-IsStuck t gone u us m (ne_of_away gone w.0 m))

run-IsStuck :
    (cs : List Call) (gone ts : List ℕ) (n : ℕ)
    → IsHonest gone cs
    → IsStuck gone ts
    → all_granted cs (record { tickets = ts; next_ticket = n }) ≡ []
unfolding all_granted
run-IsStuck cs gone [] n w m = absurd m
run-IsStuck [] gone (u ∷ us) n w m = refl
run-IsStuck (c ∷ cs) gone (u ∷ us) n w m =
    let (gone', nobody, w', m') = step-IsStuck c cs gone u us n w m in
    let q : TicketQueue = step c (record { tickets = u ∷ us; next_ticket = n }) in
    rw nobody (run-IsStuck cs gone' q.tickets q.next_ticket w' m')

-- When a caller gives up while someone stands behind it (and its ticket stood in the line once),
-- nobody is ever let through again, whatever the callers that have not given up do next: take
-- tickets, ask for their turn, or give up too.
pub abandon_blocks :
    (t v n : ℕ) (pre post : List ℕ) (cs : List Call)
    → All (λ u. u ≢ t) pre
    → IsHonest (t ∷ []) cs
    → all_granted cs (step (abandon t) (record { tickets = pre ++ t ∷ v ∷ post; next_ticket = n }))
      ≡ []
unfolding step
abandon_blocks t v n pre post cs away w =
    run-IsStuck cs (t ∷ []) _ _ w (rw (delete_lem t n pre (v ∷ post) away) (inl refl))
