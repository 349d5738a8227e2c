-- ===== src/Httd/Headers/Tests.antt =====
-- internal/httd/header.go: responses with and without a reset of their own.
use disgord.Base.{ℕ, ◌+◌, ◌*◌, ◌<◌, ◌≤◌, ◌≡◌, refl, Option, none, some, false, arith}
use disgord.Httd.Bucket.{Header, limit_of}
use disgord.Httd.Headers.{RawHeader, null, rate_limit, normalized, panics, normalize_discord_header}
use disgord.Httd.Headers.Resets.{delay_of, limit_of-normalize}

-- A date of ten seconds, which arrives at twelve by the local clock.
abbrev told : Option ℕ → RawHeader
told reset = record {
  date = some 10000000000;
  disgord_now = some 12000;
  bucket_hash = "abc";
  empty_hash = false;
  global = false;
  reset_after = none;
  reset = reset;
  remaining = none;
}

abbrev tidy : ℕ → Header
tidy reset = record {
  date = some 10000000000;
  bucket_hash = "abc";
  empty_hash = false;
  global = false;
  reset = some reset;
  remaining = none;
}

-- A clock that reads twelve seconds.
abbrev local : ℕ → ℕ
local n = 12000000000

body_is_read :
    normalize_discord_header 0 429 (rate_limit false 3000) (told none) ≡ normalized (tidy 13000)
unfolding normalize_discord_header
body_is_read = refl

limit_of-normalize_example :
    ((limit_of local (tidy 13000)).reset
      ≤ 12000000000 + delay_of 429 (rate_limit false 3000) (told none) * 1000000)
    × (12000000000 + delay_of 429 (rate_limit false 3000) (told none) * 1000000
        < (limit_of local (tidy 13000)).reset + 1000000)
limit_of-normalize_example =
    limit_of-normalize 0 429 (rate_limit false 3000) (told none) (tidy 13000) 10000000000 local
      body_is_read refl refl (ground arith)

-- With a reset of its own, the delay of three seconds becomes one of five.
reset_is_moved :
    normalize_discord_header 0 429 (rate_limit false 3000) (told (some 13000))
    ≡ normalized (tidy 15000)
unfolding normalize_discord_header
reset_is_moved = refl

five_seconds : (limit_of local (tidy 15000)).reset ≡ 17000000000
five_seconds = refl

-- The body `null` is no body: a nil pointer is read.
null_panics : normalize_discord_header 0 429 null (told none) ≡ panics
unfolding normalize_discord_header
null_panics = refl
