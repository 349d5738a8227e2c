-- ===== src/Gateway/RateLimit/Decisions.antt =====
-- internal/gateway/ratelimit.go: one request to the rate limiter of a client, against a specification
-- that keeps the times of the requests instead of arrays: at most 120 commands in 60 seconds, and 5 of
-- them status updates.
use disgord.Base.{
  ℕ, ◌≤◌, ◌≡◌, refl, List, [], ◌∷◌, some, Bool, true, false, if◌then◌else◌, String, str_eq,
  Bool-cases, subst, sym, inl, inr,
}
use disgord.Gateway.Command.{update_status}
use disgord.Gateway.RateLimit.{
  Bucket, RateLimiter, find_bucket, set_bucket, new_ratelimit_bucket, new_ratelimiter, request,
}
use disgord.Gateway.RateLimit.Window.{
  IsTracking, is_full, inserted, blocked_lem, insert_lem, inserted-IsTracking, new-IsTracking,
}

-- A minute, in nanoseconds.
abbrev pub minute : ℕ
minute = 60000000000

-- The times, newest first, of the requests that the global limit let in, and of the status updates
-- that were accepted.
pub record Log : Type 0 where
  pub passed : List ℕ
  pub statuses : List ℕ

-- The decision on one call, by the log alone.
abbrev pub decide : (ℕ → ℕ) → String → Log → Log × Bool
decide clock cmd l =
    if is_full 119 minute l.passed (clock 0)
    then (l, false)
    else if str_eq update_status cmd
    then (if is_full 4 minute l.statuses (clock 2)
        then (record l { passed = clock 1 ∷ l.passed }, false)
        else (record { passed = clock 1 ∷ l.passed; statuses = clock 3 ∷ l.statuses }, true))
    else (record l { passed = clock 1 ∷ l.passed }, true)

-- The limiter's arrays hold what the log says.
pub record IsLimiting (rl : RateLimiter) (l : Log) : Type 0 where
  pub status_bucket : Bucket
  pub only_status : rl.buckets ≡ (update_status, status_bucket) ∷ []
  pub global_tracks : IsTracking 120 minute rl.global l.passed
  pub status_tracks : IsTracking 5 minute status_bucket l.statuses

-- The readings of the clock in one call do not run backwards.
abbrev pub IsForward : (ℕ → ℕ) → Type 0
IsForward clock = (clock 0 ≤ clock 1) × (clock 2 ≤ clock 3)

pub new-IsLimiting : IsLimiting new_ratelimiter (record { passed = []; statuses = [] })
unfolding new_ratelimiter new_ratelimit_bucket
new-IsLimiting = record {
  status_bucket = new_ratelimit_bucket 5 60;
  only_status = refl;
  global_tracks = new-IsTracking 120 minute;
  status_tracks = new-IsTracking 5 minute;
}

-- A limiter with the one bucket that `newRatelimiter` makes.
abbrev limiter : Bucket → Bucket → RateLimiter
limiter b g = record { buckets = (update_status, b) ∷ []; global = g }

module _ (clock : ℕ → ℕ) (cmd : String) (b g : Bucket) (l : Log) (fw : IsForward clock)
    (gt : IsTracking 120 minute g l.passed) (st : IsTracking 5 minute b l.statuses) where
  abbrev g' : Bucket
  g' = inserted 119 minute g l.passed gt (clock 1) cmd

  abbrev b' : Bucket
  b' = inserted 4 minute b l.statuses st (clock 3) cmd

  abbrev Outcome : Type 0
  Outcome =
      (rl' : RateLimiter) × (request clock cmd (limiter b g) ≡ some (rl', (decide clock cmd l).1))
      × IsLimiting rl' (decide clock cmd l).0

  passed_tracks :
      is_full 119 minute l.passed (clock 0) ≡ false → IsTracking 120 minute g' (clock 1 ∷ l.passed)
  passed_tracks free =
      inserted-IsTracking 119 minute g l.passed gt (clock 0) (clock 1) cmd fw.0 free

  refused : is_full 119 minute l.passed (clock 0) ≡ true → Outcome
  unfolding request
  refused full = (
    limiter b g,
    rw (blocked_lem 119 minute g l.passed gt (clock 0), full) refl,
    rw full
        (record { status_bucket = b; only_status = refl; global_tracks = gt; status_tracks = st }),
  )

  other_passes :
      is_full 119 minute l.passed (clock 0) ≡ false → str_eq update_status cmd ≡ false → Outcome
  unfolding request find_bucket
  other_passes free other = (
    limiter b g',
    rw
        (
          blocked_lem 119 minute g l.passed gt (clock 0),
          free,
          insert_lem 119 minute g l.passed gt (clock 1) cmd,
          other,
        )
        refl,
    rw (free, other)
        (record {
          status_bucket = b;
          only_status = refl;
          global_tracks = passed_tracks free;
          status_tracks = st;
        }),
  )

  status_refused :
      is_full 119 minute l.passed (clock 0) ≡ false
      → str_eq update_status cmd ≡ true
      → is_full 4 minute l.statuses (clock 2) ≡ true
      → Outcome
  unfolding request find_bucket
  status_refused free status full = (
    limiter b g',
    rw
        (
          blocked_lem 119 minute g l.passed gt (clock 0),
          free,
          insert_lem 119 minute g l.passed gt (clock 1) cmd,
          status,
          blocked_lem 4 minute b l.statuses st (clock 2),
          full,
        )
        refl,
    rw (free, status, full)
        (record {
          status_bucket = b;
          only_status = refl;
          global_tracks = passed_tracks free;
          status_tracks = st;
        }),
  )

  status_passes :
      is_full 119 minute l.passed (clock 0) ≡ false
      → str_eq update_status cmd ≡ true
      → is_full 4 minute l.statuses (clock 2) ≡ false
      → Outcome
  unfolding request find_bucket set_bucket
  status_passes free status room = (
    limiter b' g',
    rw
        (
          blocked_lem 119 minute g l.passed gt (clock 0),
          free,
          insert_lem 119 minute g l.passed gt (clock 1) cmd,
          status,
          blocked_lem 4 minute b l.statuses st (clock 2),
          room,
          insert_lem 4 minute b l.statuses st (clock 3) cmd,
        )
        (rw status),
    rw (free, status, room)
        (record {
          status_bucket = b';
          only_status = refl;
          global_tracks = passed_tracks free;
          status_tracks =
              inserted-IsTracking 4 minute b l.statuses st (clock 2) (clock 3) cmd fw.1 room;
        }),
  )

  outcome : Outcome
  outcome = elim (Bool-cases (is_full 119 minute l.passed (clock 0))) [
    | inl full ↦ refused full
    | inr free ↦ elim (Bool-cases (str_eq update_status cmd)) [
      | inr other ↦ other_passes free other
      | inl status ↦ elim (Bool-cases (is_full 4 minute l.statuses (clock 2))) [
        | inl full ↦ status_refused free status full
        | inr room ↦ status_passes free status room
      ]
    ]
  ]

-- A call of `Request` never panics, it decides as the log does, and its arrays keep up with the log.
pub request-decide :
    (clock : ℕ → ℕ) (cmd : String) (rl : RateLimiter) (l : Log)
    → IsForward clock
    → IsLimiting rl l
    → (rl' : RateLimiter) × (request clock cmd rl ≡ some (rl', (decide clock cmd l).1))
      × IsLimiting rl' (decide clock cmd l).0
request-decide clock cmd rl l fw v =
    subst
      (λ r.
        (rl' : RateLimiter) × (request clock cmd r ≡ some (rl', (decide clock cmd l).1))
        × IsLimiting rl' (decide clock cmd l).0)
      (λ i. record { buckets = sym v.only_status i; global = rl.global })
      (outcome clock cmd v.status_bucket rl.global l fw v.global_tracks v.status_tracks)
