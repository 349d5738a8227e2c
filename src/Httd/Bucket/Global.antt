-- ===== src/Httd/Bucket/Global.antt =====
-- internal/httd/bucket.go: what becomes of the global bucket if responses that say that the bot is limited
-- everywhere do not carry X-RateLimit-Remaining.
use disgord.Base.{
  ℕ, ◌≡◌, refl, List, [], ◌∷◌, Option, none, some, Bool, true, false, arith, All, ◌&&◌, is_some,
}
use disgord.Httd.Bucket.{
  LtBucket, Header, Exchange, active, selective_global_lock, is_global, update_after_request,
  refresh, refresh_one, decrement, release, transaction, respond_with, after_response, limit_of,
  Limit,
}

-- The requests that have the locks, one after the other, and the two buckets behind them.
abbrev pub transact_all : List Exchange → LtBucket × LtBucket → LtBucket × LtBucket
transact_all [] (b, g) = (b, g)
transact_all (e ∷ es) (b, g) =
    let (b', g', result) = transaction e (b, g) in transact_all es (b', g')

-- A response that is about the global limit does not say how many requests remain.
abbrev pub IsSilent : Option (Header × ℕ) → Type 0
IsSilent none = Unit
IsSilent (some (h, status)) = (is_global h && is_some h.remaining) ≡ false

refresh-remaining :
    (l : Limit) (g : LtBucket)
    → g.remaining ≡ none
    → l.remaining ≡ none
    → (refresh l g).0.remaining ≡ none
unfolding refresh
refresh-remaining l g u r = ground (arith, u, r)

update-remaining :
    (clock : ℕ → ℕ) (h : Header) (status : ℕ) (b g : LtBucket)
    → g.remaining ≡ none
    → (is_global h && is_some h.remaining) ≡ false
    → (update_after_request clock h status (b, g)).1.remaining ≡ none
unfolding update_after_request refresh_one
update-remaining clock h status b g u s =
    ground (arith, u, s, refresh-remaining (limit_of clock h) g)

decrement-remaining : (b : LtBucket) → b.remaining ≡ none → (decrement b).remaining ≡ none
unfolding decrement
decrement-remaining b u = rw u refl

after_response-remaining :
    (using : Bool) (b g : LtBucket) (adjusted : Bool)
    → g.remaining ≡ none
    → (after_response using (b, g, adjusted)).1.remaining ≡ none
unfolding after_response
after_response-remaining using b g true u = u
after_response-remaining true b g false u = decrement-remaining g u
after_response-remaining false b g false u = u

respond_with-remaining :
    (r : Option (Header × ℕ)) (clock : ℕ → ℕ) (b g : LtBucket)
    → g.remaining ≡ none
    → IsSilent r
    → (respond_with r clock (b, g)).1.remaining ≡ none
unfolding respond_with
respond_with-remaining none clock b g u s = u
respond_with-remaining (some (h, status)) clock b g u s =
    let (b', g', adjusted) = update_after_request clock h status (b, g) in
    after_response-remaining b.using_global b' g' adjusted (update-remaining clock h status b g u s)

release-remaining : (b g : LtBucket) → g.remaining ≡ none → (release (b, g)).1.remaining ≡ none
unfolding release
release-remaining b g u = ground (arith, u)

pub transaction-remaining :
    (e : Exchange) (b g : LtBucket)
    → g.remaining ≡ none
    → IsSilent e.response
    → (transaction e (b, g)).1.remaining ≡ none
unfolding transaction
transaction-remaining e b g u s =
    let (b', g', result) = respond_with e.response e.later (b, g) in
    ground (
      arith,
      release-remaining b g u,
      release-remaining b' g' (respond_with-remaining e.response e.later b g u s),
    )

transact_all-remaining :
    (es : List Exchange) (b g : LtBucket)
    → g.remaining ≡ none
    → All (λ e. IsSilent e.response) es
    → (transact_all es (b, g)).1.remaining ≡ none
transact_all-remaining [] b g u s = u
transact_all-remaining (e ∷ es) b g u s =
    let (b', g', result) = transaction e (b, g) in
    transact_all-remaining es b' g' (transaction-remaining e b g u s.0) s.1

-- Whatever requests a bucket has made, and whatever they were told of a limit on everything, if no
-- response that is about the global limit carries X-RateLimit-Remaining, a global bucket that knew
-- of no limit is inactive still: the next request takes no lock on it, whenever it comes.
pub transact_all-unlimited :
    (es : List Exchange) (clock : ℕ → ℕ) (b g : LtBucket)
    → g.remaining ≡ none
    → All (λ e. IsSilent e.response) es
    → let (b', g') = transact_all es (b, g) in
      selective_global_lock clock (b', g') ≡ (b', g', some false)
unfolding selective_global_lock active
transact_all-unlimited es clock b g u s = rw (transact_all-remaining es b g u s) refl
