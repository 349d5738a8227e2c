-- ===== src/Gateway/RateLimit/Requests.antt =====
-- internal/gateway/ratelimit.go: any history of requests to the rate limiter of a client, against the
-- log of their times.
use disgord.Base.{ℕ, ◌≡◌, refl, List, [], ◌∷◌, Option, some, Bool, ◌>>=◌, String}
use disgord.Gateway.RateLimit.{RateLimiter, new_ratelimiter, request}
use disgord.Gateway.RateLimit.Window.{Spaced}
use disgord.Gateway.RateLimit.Decisions.{
  minute, Log, decide, IsLimiting, IsForward, new-IsLimiting, request-decide,
}

-- The calls of a history: the readings of the clock, and the command.
abbrev pub Calls : Type 0
Calls = List ((ℕ → ℕ) × String)

unfoldable pub run : Calls → RateLimiter → Option (RateLimiter × List Bool)
run [] rl = some (rl, [])
run ((clock, cmd) ∷ cs) rl = do
  (rl', accepted) ← request clock cmd rl
  (rl'', rest) ← run cs rl'
  some (rl'', accepted ∷ rest)

abbrev pub decide_all : Calls → Log → Log × List Bool
decide_all [] l = (l, [])
decide_all ((clock, cmd) ∷ cs) l =
    let (l', accepted) = decide clock cmd l in
    let (l'', rest) = decide_all cs l' in (l'', accepted ∷ rest)

abbrev pub IsForwardAll : Calls → Type 0
IsForwardAll [] = Unit
IsForwardAll ((clock, cmd) ∷ cs) = IsForward clock × IsForwardAll cs

run-decide_all :
    (cs : Calls) (rl : RateLimiter) (l : Log)
    → IsForwardAll cs
    → IsLimiting rl l
    → (rl' : RateLimiter) × (run cs rl ≡ some (rl', (decide_all cs l).1))
      × IsLimiting rl' (decide_all cs l).0
unfolding run
run-decide_all [] rl l fw v = (rl, refl, v)
run-decide_all ((clock, cmd) ∷ cs) rl l fw v =
    let (rl', e, v') = request-decide clock cmd rl l fw.0 v in
    let (rl'', e', v'') = run-decide_all cs rl' (decide clock cmd l).0 fw.1 v' in
    (rl'', rw e (rw e' refl), v'')

abbrev pub no_requests : Log
no_requests = record { passed = []; statuses = [] }

-- For any history of requests to a new limiter, with a clock that does not run backwards within a
-- call: no request panics, each is decided as the log says, and in the log each request that the
-- global limit let in comes more than a minute after the 120th before it, and each accepted status
-- update more than a minute after the 5th before it.
pub run_limits :
    (cs : Calls)
    → IsForwardAll cs
    → let (l, accepted) = decide_all cs no_requests in
      (rl : RateLimiter) × (run cs new_ratelimiter ≡ some (rl, accepted))
      × Spaced 120 minute l.passed
      × Spaced 5 minute l.statuses
run_limits cs fw =
    let (rl, e, v) = run-decide_all cs new_ratelimiter no_requests fw new-IsLimiting in
    (rl, e, v.global_tracks.spaced, v.status_tracks.spaced)
