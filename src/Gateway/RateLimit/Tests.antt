-- ===== src/Gateway/RateLimit/Tests.antt =====
-- The theorem on the rate limiter at a concrete history.
use disgord.Base.{ℕ, ◌+◌, ◌*◌, ◌≡◌, refl, [], ◌∷◌, some, true, false, arith}
use disgord.Gateway.Command.{update_status}
use disgord.Gateway.RateLimit.{RateLimiter, new_ratelimiter}
use disgord.Gateway.RateLimit.Window.{Spaced}
use disgord.Gateway.RateLimit.Decisions.{minute}
use disgord.Gateway.RateLimit.Requests.{Calls, run, decide_all, no_requests, run_limits}

-- Six status updates, one a second, and another command.
abbrev at_second : ℕ → ℕ → ℕ
at_second s i = (1600000000 + s) * 1000000000 + i

abbrev busy : Calls
busy =
    (at_second 0, update_status)
    ∷ (at_second 1, update_status)
    ∷ (at_second 2, update_status)
    ∷ (at_second 3, update_status)
    ∷ (at_second 4, update_status)
    ∷ (at_second 5, update_status)
    ∷ (at_second 6, "UPDATE_VOICE_STATE")
    ∷ []

run_limits_example :
    let (l, accepted) = decide_all busy no_requests in
    (rl : RateLimiter) × (run busy new_ratelimiter ≡ some (rl, accepted))
    × Spaced 120 minute l.passed
    × Spaced 5 minute l.statuses
run_limits_example = run_limits busy (omega arith)

-- The sixth status update is refused, and yet counts against the global limit.
busy_decisions :
    (decide_all busy no_requests).1 ≡ true ∷ true ∷ true ∷ true ∷ true ∷ false ∷ true ∷ []
busy_decisions = refl
