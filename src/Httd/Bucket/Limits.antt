-- ===== src/Httd/Bucket/Limits.antt =====
-- How many requests a bucket lets go before its limit resets.
use disgord.Base.{
  ℕ, suc, ◌≡◌, refl, ◌+◌, ◌-◌, ◌≤◌, ◌<◌, ◌*◌, List, [], ◌∷◌, Option, none, some, Bool, true, false,
  arith, ltb, ◌&&◌, is_some, if◌then◌else◌, Bool-cases, inl, inr, ◌==◌, All, subst, sym,
}
use disgord.Util.AtomicLock.{acquire_lock}
use disgord.Httd.Bucket.Global.{IsSilent, transaction-remaining}
use disgord.Httd.Bucket.{
  acquire, active, with_lock, selective_global_lock, after_global, LtBucket, Header, Limit,
  Exchange, Result, responded, too_late, cancelled, failed, transaction, release,
  update_after_request, refresh, lowers, limit_of, or_else, hash_after, decrement, is_global, waits,
  wait_of, after_response, respond_with, refresh_one, misses, after_response, respond_with,
  refresh_one, misses,
}

abbrev pub raises : Option ℕ → Option ℕ → Bool
raises (some a) (some b) = ltb a b
raises (some a) none = false
raises none o = false

-- A response never moves the reset of its bucket back, by Discord's clock. While that stays the same,
-- a number of remaining requests that is known never rises.
refresh_monotone :
    (l : Limit) (b : LtBucket)
    → let b' = (refresh l b).0 in
      (b.discord_reset_time ≤ b'.discord_reset_time)
      × ((b'.discord_reset_time == b.discord_reset_time && raises b.remaining b'.remaining) ≡ false)
unfolding refresh lowers
refresh_monotone l b = ground arith

-- A response that says nothing of a later window, nor of the global limit.
abbrev pub IsOfWindow : ℕ → Option (Header × ℕ) → Type 0
IsOfWindow reset none = Unit
IsOfWindow reset (some (h, status)) =
    (is_global h ≡ false) × (or_else h.reset 0 * 1000000 ≤ reset) × (is_some h.remaining ≡ true)

abbrev pub is_responded : Result → Bool
is_responded responded = true
is_responded too_late = false
is_responded cancelled = false
is_responded failed = false

-- Whether a request that has the locks is sent, and answered, before the bucket's limit resets.
abbrev pub is_early : Exchange → LtBucket × LtBucket → Bool
is_early e (b, g) =
    is_responded (transaction e (b, g)).2 && ltb (e.now + wait_of e (b, g)) b.reset_time

-- Attempts at a request, one after the other, each with the readings of the clock as it asks for the
-- locks: it is made if it gets them.
unfoldable pub early : List ((ℕ → ℕ) × Exchange) → LtBucket × LtBucket → ℕ
early [] s = 0
early ((clock, e) ∷ es) s =
    let (b, g, locked) = acquire clock s in
    let (b', g', r) = transaction e (b, g) in
    let refused = early es (b, g) in
    let rest = early es (b', g') in
    if locked then (if is_early e (b, g) then suc rest else rest) else refused

-- The bucket of a window with `m` requests left, not used with the global lock.
record InWindow (reset discord m : ℕ) (b : LtBucket) : Type 0 where
  unused : b.using_global ≡ false
  same_reset : b.reset_time ≡ reset
  same_window : b.discord_reset_time ≡ discord
  known : b.remaining ≡ some m

refresh-InWindow :
    (reset discord n : ℕ) (l : Limit) (b : LtBucket)
    → InWindow reset discord n b
    → l.discord_reset ≤ discord
    → is_some l.remaining ≡ true
    → let (b', adjusted) = refresh l b in
      (m : ℕ) × InWindow reset discord m b' × ((if adjusted then suc m else m) ≤ n)
unfolding refresh lowers
refresh-InWindow reset discord n l b v old says = (
  or_else (refresh l b).0.remaining 0,
  record {
    unused = ground arith;
    same_reset = ground arith;
    same_window = ground arith;
    known = ground arith;
  },
  ground arith,
)

decrement-InWindow :
    (reset discord m : ℕ) (b : LtBucket)
    → InWindow reset discord m b
    → InWindow reset discord (m - 1) (decrement b)
unfolding decrement
decrement-InWindow reset discord m b v = record {
  unused = v.unused;
  same_reset = v.same_reset;
  same_window = v.same_window;
  known = rw v.known refl;
}

release-InWindow :
    (reset discord m : ℕ) (b g : LtBucket)
    → InWindow reset discord m b
    → InWindow reset discord m (release (b, g)).0
unfolding release
release-InWindow reset discord m b g v = record {
  unused = refl;
  same_reset = v.same_reset;
  same_window = v.same_window;
  known = v.known;
}

-- What an answer, or something else, takes of `n` requests at most.
abbrev left_at_most : ℕ → Bool → ℕ
left_at_most n answered = if answered then n - 1 else n

module _ (reset discord n : ℕ) where
  adjusted-InWindow :
      (s : LtBucket × LtBucket × Bool) (m : ℕ)
      → InWindow reset discord m s.0
      → (if s.2 then suc m else m) ≤ n
      → (k : ℕ) × InWindow reset discord k (after_response false s).0 × (k ≤ n - 1)
  unfolding after_response
  adjusted-InWindow (b, g, true) m v h = (m, v, omega (arith, h))
  adjusted-InWindow (b, g, false) m v h =
      (m - 1, decrement-InWindow reset discord m b v, omega (arith, h))

  update-InWindow :
      (clock : ℕ → ℕ) (h : Header) (status : ℕ) (b g : LtBucket)
      → InWindow reset discord n b
      → IsOfWindow discord (some (h, status))
      → let s = update_after_request clock h status (b, g) in
        (m : ℕ) × InWindow reset discord m s.0 × ((if s.2 then suc m else m) ≤ n)
  unfolding update_after_request refresh_one
  update-InWindow clock h status b g v w =
      let l = limit_of clock h in
      let bh : LtBucket = record b { hash = hash_after h status b } in
      subst
        (λ about.
          (m : ℕ) × InWindow reset discord m (refresh_one about l (bh, g)).0
          × ((if (refresh_one about l (bh, g)).2 then suc m else m) ≤ n))
        (sym w.0)
        (refresh-InWindow reset discord n l bh
          (record {
            unused = v.unused;
            same_reset = v.same_reset;
            same_window = v.same_window;
            known = v.known;
          })
          w.1 w.2)

  respond-InWindow :
      (response : Option (Header × ℕ)) (clock : ℕ → ℕ) (b g : LtBucket)
      → InWindow reset discord n b
      → IsOfWindow discord response
      → let r = respond_with response clock (b, g) in
        (m : ℕ) × InWindow reset discord m r.0 × (m ≤ left_at_most n (is_responded r.2))
  unfolding respond_with
  respond-InWindow none clock b g v w = (n, v, omega arith)
  respond-InWindow (some (h, status)) clock b g v w =
      let s = update_after_request clock h status (b, g) in
      let (m, vm, hm) = update-InWindow clock h status b g v w in
      subst (λ using. (k : ℕ) × InWindow reset discord k (after_response using s).0 × (k ≤ n - 1))
        (sym v.unused) (adjusted-InWindow s m vm hm)

  transaction-InWindow :
      (e : Exchange) (b g : LtBucket)
      → InWindow reset discord n b
      → IsOfWindow discord e.response
      → let t = transaction e (b, g) in
        (m : ℕ) × InWindow reset discord m t.0 × (m ≤ left_at_most n (is_responded t.2))
  unfolding transaction
  transaction-InWindow e b g v w =
      let (m, vm, hm) = respond-InWindow e.response e.later b g v w in
      let (b', g', r) = respond_with e.response e.later (b, g) in
      elim (Bool-cases (misses e.deadline (e.checked + wait_of e (b, g)))) [
        | inl late ↦ rw late (n, release-InWindow reset discord n b g v, omega arith)
        | inr good ↦ elim (Bool-cases e.cancelled) [
          | inl gone ↦ rw (good, gone) (n, release-InWindow reset discord n b g v, omega arith)
          | inr here ↦ rw (good, here) (m, release-InWindow reset discord m b' g' vm, hm)
        ]
      ]

  early_positive :
      (e : Exchange) (b g : LtBucket)
      → InWindow reset discord n b
      → is_early e (b, g) ≡ true
      → 0 < n
  unfolding waits
  early_positive e b g v h = ground (arith, v.known, v.unused)

one_less :
    (n m k : ℕ) (answered soon : Bool)
    → (answered && soon) ≡ true
    → 0 < n
    → m ≤ left_at_most n answered
    → k ≤ m
    → suc k ≤ n
one_less n m k true soon early_one some_left h le = omega (arith, h)
one_less n m k false soon early_one some_left h le = absurd (ground arith)

no_more : (n m k : ℕ) (answered : Bool) → m ≤ left_at_most n answered → k ≤ m → k ≤ n
no_more n m k true h le = omega (arith, h)
no_more n m k false h le = omega (arith, h)

-- Without a limit on everything, a request that gets the lock of its bucket uses that bucket.
acquire_unlimited :
    (clock : ℕ → ℕ) (b g : LtBucket)
    → g.remaining ≡ none
    → let (lock, locked) = acquire_lock b.atomic_lock in
      acquire clock (b, g) ≡ (if locked then (with_lock b lock, g, true) else (b, g, false))
unfolding acquire selective_global_lock active after_global
acquire_unlimited clock b g u = ground (arith, u)

acquire-InWindow :
    (reset discord n : ℕ) (clock : ℕ → ℕ) (b g : LtBucket)
    → g.remaining ≡ none
    → InWindow reset discord n b
    → let r = acquire clock (b, g) in InWindow reset discord n r.0 × (r.1.remaining ≡ none)
acquire-InWindow reset discord n clock b g u v =
    let kept : InWindow reset discord n (with_lock b (acquire_lock b.atomic_lock).0) = record {
      unused = v.unused;
      same_reset = v.same_reset;
      same_window = v.same_window;
      known = v.known;
    } in
    elim (Bool-cases (acquire_lock b.atomic_lock).1) [
      | inl locked ↦ rw (acquire_unlimited clock b g u, locked) (kept, u)
      | inr busy ↦ rw (acquire_unlimited clock b g u, busy) (v, u)
    ]

IsOfWindow-IsSilent :
    (discord : ℕ) (response : Option (Header × ℕ)) → IsOfWindow discord response → IsSilent response
IsOfWindow-IsSilent discord none w = tt
IsOfWindow-IsSilent discord (some (h, status)) w = ground (arith, w.0)

early_from :
    (reset discord n : ℕ) (es : List ((ℕ → ℕ) × Exchange)) (b g : LtBucket)
    → g.remaining ≡ none
    → InWindow reset discord n b
    → All (λ x. IsOfWindow discord x.1.response) es
    → early es (b, g) ≤ n
unfolding early
early_from reset discord n [] b g u v w = omega arith
early_from reset discord n ((clock, e) ∷ es) b0 g0 u0 v0 w =
    let (b, g, locked) = acquire clock (b0, g0) in
    let (v, u) = acquire-InWindow reset discord n clock b0 g0 u0 v0 in
    let (m, vm, hm) = transaction-InWindow reset discord n e b g v w.0 in
    let (b', g', r) = transaction e (b, g) in
    let u' = transaction-remaining e b g u (IsOfWindow-IsSilent discord e.response w.0) in
    let ih = early_from reset discord m es b' g' u' vm w.1 in
    elim (Bool-cases locked) [
      | inr refused ↦ rw refused (early_from reset discord n es b g u v w.1)
      | inl granted ↦ elim (Bool-cases (is_early e (b, g))) [
        | inl yes_early ↦
            let some_left = early_positive reset discord n e b g v yes_early in
            rw (granted, yes_early)
              (one_less n m (early es (b', g')) (is_responded r) _ yes_early some_left hm ih)
        | inr not_early ↦
            rw (granted, not_early) (no_more n m (early es (b', g')) (is_responded r) hm ih)
      ]
    ]

-- While no limit on everything is known, a bucket that knows of `n` remaining requests and does not
-- use the global lock lets at most `n` requests be answered before its limit resets, however many ask
-- for its lock, one after the other, as long as the responses are not about a later window or the
-- global limit and say how many requests remain: the others wait.
pub early_le :
    (es : List ((ℕ → ℕ) × Exchange)) (b g : LtBucket) (n : ℕ)
    → g.remaining ≡ none
    → b.using_global ≡ false
    → b.remaining ≡ some n
    → All (λ x. IsOfWindow b.discord_reset_time x.1.response) es
    → early es (b, g) ≤ n
early_le es b g n unlimited idle known w =
    early_from b.reset_time b.discord_reset_time n es b g unlimited
      (record { unused = idle; same_reset = refl; same_window = refl; known = known }) w
