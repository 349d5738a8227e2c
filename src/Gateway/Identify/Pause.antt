-- ===== src/Gateway/Identify/Pause.antt =====
-- How the queue spaces the identifies.
use disgord.Base.{
  ℕ, zero, suc, ◌+◌, ◌*◌, ◌-◌, ◌≤◌, ◌<◌, ◌≡◌, refl, ap, ◌∙◌, List, [], ◌∷◌, ◌++◌, Option, some,
  false, arith, ltb, length, get_elem?, if◌then◌else◌, ◌>>=◌, All, All-append, length-append,
  Bool-cases, inl, inr,
}
use disgord.Gateway.Identify.{
  day, leading, rotate_by_time, cleanup, reverse, count_before, reconnects_since, ShardSync, pause,
  process_item,
}

-- Every identify so far lies at most at `now`.
abbrev pub IsPast : ℕ → List ℕ → Type 0
IsPast now ts = All (λ t. t ≤ now) ts

rotate_past : (now : ℕ) (ts : List ℕ) → IsPast now ts → rotate_by_time ts (now + 2 * day) ≡ ts
unfolding rotate_by_time leading
rotate_past now [] p = refl
rotate_past now (t ∷ ts) p = ground arith

reverse-IsPast : (now : ℕ) (ts : List ℕ) → IsPast now ts → IsPast now (reverse ts)
unfolding reverse
reverse-IsPast now [] p = tt
reverse-IsPast now (t ∷ ts) p =
    All-append (λ u. u ≤ now) (reverse ts) (t ∷ []) (reverse-IsPast now ts p.1) (p.0, tt)

count_past : (now : ℕ) (ts : List ℕ) → IsPast now ts → count_before (now + day) ts ≡ length ts
unfolding count_before
count_past now [] p = refl
count_past now (t ∷ ts) p = ground (arith, count_past now ts p.1)

length-reverse : (ts : List ℕ) → length (reverse ts) ≡ length ts
unfolding reverse
length-reverse [] = refl
length-reverse (t ∷ ts) = length-append (reverse ts) (t ∷ []) ∙ omega (arith, length-reverse ts)

-- What the metric makes of a list of past times: it keeps all and counts all.
since_past :
    (now : ℕ) (ts : List ℕ)
    → IsPast now ts
    → reconnects_since now day (record { reconnects = ts })
      ≡ (record { reconnects = ts }, length ts)
unfolding reconnects_since cleanup
since_past now ts p =
    rw
      (
        rotate_past now ts p,
        count_past now (reverse ts) (reverse-IsPast now ts p),
        length-reverse ts,
      )
      refl

get_within : (ts : List ℕ) (i : ℕ) → i < length ts → (t : ℕ) × (get_elem? ts i ≡ some t)
get_within [] i h = absurd (omega arith)
get_within (t ∷ ts) zero h = (t, refl)
get_within (t ∷ ts) (suc i) h = get_within ts i (omega arith)

-- The pause after an identify at `now`, by all identifies so far and it: the timeout while they are
-- less than the limit of a day, and then as long as brings the pause's end a day and the timeout
-- behind the identify that is the limit's number of places from the end, but not below 0.
abbrev pub pause_after : ℕ → ℕ → ℕ → List ℕ → Option ℕ
pause_after now n timeout ts =
    let oldest = do t ← get_elem? ts (length ts - n); some ((timeout + day + t) - now)
    in if ltb (length ts) n then some timeout else oldest

pause_past :
    (now : ℕ) (s : ShardSync) (ts : List ℕ)
    → 0 < s.identifies_per24_h
    → pause now (length ts) (record s { metric = record { reconnects = ts } })
      ≡ pause_after now s.identifies_per24_h s.timeout ts
unfolding pause
pause_past now s ts h = ground arith

pause_after-some :
    (now n timeout : ℕ) (ts : List ℕ)
    → 0 < n
    → 0 < length ts
    → (wait : ℕ) × (pause_after now n timeout ts ≡ some wait)
pause_after-some now n timeout ts h any = elim (Bool-cases (ltb (length ts) n)) [
  | inl few ↦ (timeout, rw few refl)
  | inr many ↦
      let (t, e) = get_within ts (length ts - n) (omega arith) in
      ((timeout + day + t) - now, rw (many, e) refl)
]

process_item_past :
    (now : ℕ) (s : ShardSync) (wait : ℕ)
    → let ts = s.metric.reconnects ++ now ∷ [] in
      IsPast now ts
      → pause now (length ts) (record s { metric = record { reconnects = ts } }) ≡ some wait
      → process_item now false s ≡ some (record s { metric = record { reconnects = ts } }, wait)
unfolding process_item
process_item_past now s wait past e = rw (since_past now _ past) (rw e refl)

-- When a shard has identified itself at `now`, with a limit above 0 and no identify in the future:
-- the round does not panic, all identifies are kept, and the queue then waits the timeout while they
-- are less than the limit. From then on it waits until a day and the timeout have passed since the
-- identify that is the limit's number of places from the end. If they have passed already, it does
-- not wait at all, not even the timeout between two identifies.
pub process_item_pause :
    (now : ℕ) (s : ShardSync)
    → 0 < s.identifies_per24_h
    → IsPast now s.metric.reconnects
    → let ts = s.metric.reconnects ++ now ∷ [] in
      (wait : ℕ) × (process_item now false s
        ≡ some (record s { metric = record { reconnects = ts } }, wait))
      × (pause_after now s.identifies_per24_h s.timeout ts ≡ some wait)
process_item_pause now s some_limit past =
    let ts = s.metric.reconnects ++ now ∷ [] in
    let all_past =
      All-append (λ t. t ≤ now) s.metric.reconnects (now ∷ []) past (omega arith, tt) in
    let (wait, e) =
      pause_after-some now s.identifies_per24_h s.timeout ts some_limit
        (omega (arith, length-append s.metric.reconnects (now ∷ []))) in
    (wait, process_item_past now s wait all_past (pause_past now s ts some_limit ∙ e), e)

-- Once as many identifies as the limit have been made in all, and the one that is the limit's number
-- of places from the end is older than a day and the timeout, the next shard does not wait at all:
-- the metric counts the old identifies too, and the negative penalty takes away the timeout.
old_identifies_no_pause :
    (now t : ℕ) (s : ShardSync)
    → 0 < s.identifies_per24_h
    → IsPast now s.metric.reconnects
    → s.identifies_per24_h ≤ length (s.metric.reconnects ++ now ∷ [])
    → get_elem?
        (s.metric.reconnects ++ now ∷ [])
        (length (s.metric.reconnects ++ now ∷ []) - s.identifies_per24_h)
      ≡ some t
    → s.timeout + day + t ≤ now
    → (s' : ShardSync) × (process_item now false s ≡ some (s', 0))
old_identifies_no_pause now t s some_limit past full e old =
    let (wait, p, q) = process_item_pause now s some_limit past in
    let none_left : wait ≡ 0 = ground (arith, q) in
    let s' : ShardSync = record s {
      metric = record { reconnects = s.metric.reconnects ++ now ∷ [] };
    } in
    (s', p ∙ ap (λ w. some (s', w)) none_left)
