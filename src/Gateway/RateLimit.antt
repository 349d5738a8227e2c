-- ===== src/Gateway/RateLimit.antt =====
-- internal/gateway/ratelimit.go: the sliding-window rate limit on gateway commands. Times are
-- nanoseconds since the epoch, as numbers that do not overflow an int64; `time.Now()` is an argument.
-- A panic is `none`.
pub mod Window
pub mod Decisions
pub mod Requests
mod Tests
use disgord.Base.{
  ℕ, zero, suc, ◌+◌, ◌*◌, ◌-◌, ◌≤◌, List, [], ◌∷◌, Option, none, some, Bool, true, false, length,
  get_elem?, replicate, leb, if◌then◌else◌, ◌>>=◌, String, str_eq,
}
use disgord.Util.Shift.{push_front}
use disgord.Gateway.Command.{update_status}

pub record Entry : Type 0 where
  pub unix : ℕ
  pub cmd : String

pub record Bucket : Type 0 where
  pub entries : List Entry
  pub duration : ℕ

abbrev pub zero_entry : Entry
zero_entry = record { unix = 0; cmd = "" }

unfoldable pub new_ratelimit_bucket_nano : ℕ → ℕ → Bucket
new_ratelimit_bucket_nano requests nano = record {
  entries = replicate requests zero_entry;
  duration = nano;
}

unfoldable pub new_ratelimit_bucket : ℕ → ℕ → Bucket
unfolding new_ratelimit_bucket_nano
new_ratelimit_bucket requests seconds = new_ratelimit_bucket_nano requests (seconds * 1000000000)

-- The test is `now - last.unix <= b.duration`, with the subtraction moved to the other side.
unfoldable pub blocked : ℕ → Bucket → Option Bool
blocked now b = do
  last ← get_elem? b.entries (length b.entries - 1)
  some (leb now (b.duration + last.unix))

unfoldable pub insert : ℕ → String → Bucket → Option Bucket
insert now cmd b = do
  entries ← push_front (record { unix = now; cmd = cmd }) b.entries
  some (record b { entries = entries })

pub record RateLimiter : Type 0 where
  pub buckets : List (String × Bucket)
  pub global : Bucket

unfoldable pub new_ratelimiter : RateLimiter
unfolding new_ratelimit_bucket
new_ratelimiter = record {
  buckets = (update_status, new_ratelimit_bucket 5 60) ∷ [];
  global = new_ratelimit_bucket 120 60;
}

unfoldable pub find_bucket : String → List (String × Bucket) → Option Bucket
find_bucket cmd [] = none
find_bucket cmd ((k, b) ∷ bs) = if str_eq k cmd then some b else find_bucket cmd bs

-- A bucket in the map shares its entries with the copy that `Insert` is called on.
unfoldable pub set_bucket : String → Bucket → List (String × Bucket) → List (String × Bucket)
set_bucket cmd b [] = []
set_bucket cmd b ((k, c) ∷ bs) = if str_eq k cmd then (k, b) ∷ bs else (k, c) ∷ set_bucket cmd b bs

-- `clock i` is the (i + 1)-th reading of the clock in the call.
in_bucket : (ℕ → ℕ) → String → RateLimiter → Option Bucket → Option (RateLimiter × Bool)
in_bucket clock cmd rl none = some (rl, true)
in_bucket clock cmd rl (some b) = do
  full ← blocked (clock 2) b
  let accept = do
    b' ← insert (clock 3) cmd b
    some (record rl { buckets = set_bucket cmd b' rl.buckets }, true)
  if full then some (rl, false) else accept

unfoldable pub request : (ℕ → ℕ) → String → RateLimiter → Option (RateLimiter × Bool)
unfolding in_bucket
request clock cmd rl = do
  full ← blocked (clock 0) rl.global
  let accept = do
    g ← insert (clock 1) cmd rl.global
    in_bucket clock cmd (record rl { global = g }) (find_bucket cmd rl.buckets)
  if full then some (rl, false) else accept
