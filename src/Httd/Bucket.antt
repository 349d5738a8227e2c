-- ===== src/Httd/Bucket.antt =====
-- internal/httd/bucket.go: a rate limit bucket beside the global one. Times are nanoseconds since the
-- epoch, at least 0; each reading of the clock is an argument. The bucket of a request and the
-- global bucket are two objects here.
pub mod Locks
pub mod Global
pub mod Limits
mod Tests
use disgord.Base.{
  ℕ, ◌+◌, ◌-◌, ◌*◌, ◌<◌, List, Option, none, some, Bool, true, false, String, str_eq, ltb, ◌==◌,
  ◌&&◌, ◌||◌, not, is_some, if◌then◌else◌,
}
use disgord.Util.AtomicLock
use disgord.Util.AtomicLock.{AtomicLock, acquire_lock, unlock}

-- A `remaining` of -1, not known, is none.
pub record LtBucket : Type 0 where
  pub atomic_lock : AtomicLock
  pub hash : String
  pub remaining : Option ℕ
  pub reset_time : ℕ
  pub discord_reset_time : ℕ
  pub updated_at : ℕ
  pub using_global : Bool

unfoldable pub new_leaky_bucket : ℕ → LtBucket
new_leaky_bucket now = record {
  atomic_lock = 0;
  hash = "";
  remaining = none;
  reset_time = now;
  discord_reset_time = 0;
  updated_at = 0;
  using_global = false;
}

unfoldable pub active : ℕ → LtBucket → Bool
active now b = is_some b.remaining && not (ltb b.reset_time now)

abbrev pub with_lock : LtBucket → AtomicLock → LtBucket
with_lock b l = record b { atomic_lock = l }

-- With the global lock in hand: it goes back if the global bucket is active no more.
global_locked : ℕ → LtBucket × LtBucket → LtBucket × LtBucket × Option Bool
global_locked now (b, g) =
    if active now g
    then (record b { using_global = true }, g, some true)
    else (b, with_lock g (unlock g.atomic_lock), some true)

-- The global bucket is read at `clock 0`, and again at `clock 1` if its lock is acquired. The result
-- is none for an error.
unfoldable pub selective_global_lock :
    (ℕ → ℕ) → LtBucket × LtBucket → LtBucket × LtBucket × Option Bool
unfolding global_locked
selective_global_lock clock (b, g) =
    if active (clock 0) g
    then (if (acquire_lock g.atomic_lock).1
        then global_locked (clock 1) (b, with_lock g (acquire_lock g.atomic_lock).0)
        else (b, g, none))
    else (b, g, some false)

after_global : LtBucket × LtBucket × Option Bool → LtBucket × LtBucket × Bool
after_global (b, g, none) = (with_lock b (unlock b.atomic_lock), g, false)
after_global (b, g, some locked) = (b, g, true)

unfoldable pub acquire : (ℕ → ℕ) → LtBucket × LtBucket → LtBucket × LtBucket × Bool
unfolding after_global
acquire clock (b, g) =
    let b' = with_lock b (acquire_lock b.atomic_lock).0 in
    if (acquire_lock b.atomic_lock).1
    then after_global (selective_global_lock clock (b', g))
    else (b, g, false)

-- The headers of a response, as they are read: an absent one is none, and a number that cannot be
-- read is 0. `empty_hash` is an entry of the map under the key as the source spells it, without a hash;
-- `reset` is in milliseconds.
pub record Header : Type 0 where
  pub date : Option ℕ
  pub bucket_hash : String
  pub empty_hash : Bool
  pub global : Bool
  pub reset : Option ℕ
  pub remaining : Option ℕ

-- Whether the limit in a bucket is above that of a response, as integers with -1 for none.
unfoldable pub lowers : Option ℕ → Option ℕ → Bool
lowers none new = true
lowers (some a) none = true
lowers (some a) (some b) = ltb b a

-- What a response says about its limit: when it resets by the local clock and by Discord's, how many
-- requests remain, and the date of the response.
pub record Limit : Type 0 where
  pub reset : ℕ
  pub discord_reset : ℕ
  pub remaining : Option ℕ
  pub date : ℕ

-- The end of `updateAfterRequest`, on the bucket that the response is about.
unfoldable pub refresh : Limit → LtBucket → LtBucket × Bool
refresh l b =
    if ltb l.discord_reset 3600000000000
    then (b, false)
    else if ltb b.discord_reset_time l.discord_reset
    then (
      record b {
        reset_time = l.reset;
        discord_reset_time = l.discord_reset;
        remaining = l.remaining;
        updated_at = l.date;
      },
      true,
    )
    else if b.discord_reset_time == l.discord_reset && lowers b.remaining l.remaining
    then (record b { remaining = l.remaining; updated_at = l.date }, true)
    else (b, false)

abbrev pub or_else : Option ℕ → ℕ → ℕ
or_else none d = d
or_else (some n) d = n

-- A response without a reset has the time 0, which is before the first hour too.
abbrev pub limit_of : (ℕ → ℕ) → Header → Limit
limit_of clock h =
    let date = or_else h.date (clock 0) in
    let epoch = or_else h.reset 0 * 1000000 in
    record {
      reset = (epoch + clock 1) - date;
      discord_reset = epoch;
      remaining = h.remaining;
      date = date;
    }

abbrev pub is_global : Header → Bool
is_global h = (h.empty_hash && str_eq h.bucket_hash "") || h.global

-- The hash that the bucket of the request ends with.
abbrev pub hash_after : Header → ℕ → LtBucket → String
hash_after h status b =
    if is_global h
    then (if not (status == 429) && str_eq b.hash "" then "global" else b.hash)
    else if str_eq h.bucket_hash ""
    then b.hash
    else h.bucket_hash

-- The bucket that the response is about: the global one, or that of the request.
refresh_one : Bool → Limit → LtBucket × LtBucket → LtBucket × LtBucket × Bool
refresh_one true l (b, g) = (b, (refresh l g).0, (refresh l g).1)
refresh_one false l (b, g) = ((refresh l b).0, g, (refresh l b).1)

unfoldable pub update_after_request :
    (ℕ → ℕ) → Header → ℕ → LtBucket × LtBucket → LtBucket × LtBucket × Bool
unfolding refresh_one
update_after_request clock h status (b, g) =
    refresh_one (is_global h) (limit_of clock h) (record b { hash = hash_after h status b }, g)

abbrev pub is_drained : Option ℕ → Bool
is_drained none = false
is_drained (some n) = n == 0

-- `waits` is how long a request waits on its bucket.
unfoldable pub waits : ℕ → LtBucket → ℕ
waits now b = if ltb now b.reset_time && is_drained b.remaining then b.reset_time - now else 0

unfoldable pub decrement : LtBucket → LtBucket
decrement b = record b { remaining = elim b.remaining [ none ↦ none | some n ↦ some (n - 1) ] }

-- What happens to a request that has the locks: the time, the time when its deadline is checked, the
-- deadline, whether it is cancelled while it waits, and the response with its status code, or none
-- for an error. The clock goes on with `later`.
pub record Exchange : Type 0 where
  pub now : ℕ
  pub checked : ℕ
  pub deadline : Option ℕ
  pub cancelled : Bool
  pub response : Option (Header × ℕ)
  pub later : ℕ → ℕ

pub data Result : Type 0 where
  too_late cancelled failed responded : Result

-- The deferred calls: the global lock and the flag if they are in use, and then the own lock.
unfoldable pub release : LtBucket × LtBucket → LtBucket × LtBucket
release (b, g) = (
  record b { atomic_lock = unlock b.atomic_lock; using_global = false },
  if b.using_global then with_lock g (unlock g.atomic_lock) else g,
)

after_response : Bool → LtBucket × LtBucket × Bool → LtBucket × LtBucket
after_response using (b, g, true) = (b, g)
after_response using (b, g, false) = if using then (b, decrement g) else (decrement b, g)

respond_with : Option (Header × ℕ) → (ℕ → ℕ) → LtBucket × LtBucket → LtBucket × LtBucket × Result
unfolding after_response
respond_with none clock (b, g) = (b, g, failed)
respond_with (some (h, status)) clock (b, g) =
    let (b', g') = after_response b.using_global (update_after_request clock h status (b, g)) in
    (b', g', responded)

abbrev pub wait_of : Exchange → LtBucket × LtBucket → ℕ
wait_of e (b, g) = waits e.now (if b.using_global then g else b)

misses : Option ℕ → ℕ → Bool
misses none t = false
misses (some d) t = ltb d t

-- `Transaction`, from when the queue lets the request through.
unfoldable pub transaction : Exchange → LtBucket × LtBucket → LtBucket × LtBucket × Result
unfolding respond_with misses
transaction e (b, g) =
    let late = misses e.deadline (e.checked + wait_of e (b, g)) in
    let (b', g', result) = respond_with e.response e.later (b, g) in
    if late
    then ((release (b, g)).0, (release (b, g)).1, too_late)
    else if e.cancelled
    then ((release (b, g)).0, (release (b, g)).1, cancelled)
    else ((release (b', g')).0, (release (b', g')).1, result)
