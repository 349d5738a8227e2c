-- ===== src/Httd/Headers.antt =====
-- internal/httd/header.go: how the rate limit headers of a response are brought to one form, before a
-- bucket reads them. Numbers in headers are read as they arrive: an absent one is none, one that cannot
-- be read is 0, none is negative, and products stay within an int64. Seconds are taken as the
-- milliseconds that they come to.
pub mod Resets
mod Tests
use disgord.Base.{
  ℕ, ◌+◌, ◌*◌, ◌/◌, Option, none, some, Bool, true, false, String, ltb, ◌==◌, ◌&&◌, ◌||◌,
  if◌then◌else◌,
}
use disgord.Httd.Bucket.{Header, or_else}

-- The headers as they come. `date` is in nanoseconds, none without one that can be read; `disgord_now`,
-- the time of arrival, none likewise; `reset_after` and `reset` are in milliseconds.
pub record RawHeader : Type 0 where
  pub date : Option ℕ
  pub disgord_now : Option ℕ
  pub bucket_hash : String
  pub empty_hash : Bool
  pub global : Bool
  pub reset_after : Option ℕ
  pub reset : Option ℕ
  pub remaining : Option ℕ

-- The body as the JSON library reads it: none at all, no JSON of this kind, `null`, or whether the limit
-- is global and the milliseconds to wait.
pub data LimitBody : Type 0 where
  no_body unreadable null : LimitBody
  rate_limit : Bool → ℕ → LimitBody

-- A panic, an error, or the headers.
pub data Normalized : Type 0 where
  panics fails : Normalized
  normalized : Header → Normalized

-- The time of arrival in milliseconds, `now` of the clock if the header does not say it.
unfoldable pub arrival : ℕ → RawHeader → ℕ
arrival now h = or_else h.disgord_now (now / 1000000)

-- The reset in milliseconds, with a delay that is 0 if none is known.
unfoldable pub reset_with : ℕ → ℕ → RawHeader → Option ℕ
unfolding arrival
reset_with now delay h = elim h.reset [
  | some reset ↦ some (if delay == 0 then reset else arrival now h + delay)
  | none ↦
      let date = or_else h.date (or_else h.disgord_now (now / 1000000) * 1000000) in
      if ltb 0 delay then some ((date + delay * 1000000) / 1000000) else none
]

with_reset : Bool → Option ℕ → RawHeader → Header
with_reset global reset h = record {
  date = h.date;
  bucket_hash = h.bucket_hash;
  empty_hash = h.empty_hash;
  global = global;
  reset = reset;
  remaining = h.remaining;
}

-- A delay of 0 in the headers of a response 429: the body is read.
from_body : ℕ → LimitBody → RawHeader → Normalized
unfolding with_reset reset_with
from_body now no_body h = normalized (with_reset h.global (reset_with now 0 h) h)
from_body now unreadable h = fails
from_body now null h = panics
from_body now (rate_limit global delay) h =
    normalized (with_reset (h.global || global) (reset_with now delay h) h)

-- `NormalizeDiscordHeader`, at the time `now` in nanoseconds.
unfoldable pub normalize_discord_header : ℕ → ℕ → LimitBody → RawHeader → Normalized
unfolding from_body with_reset reset_with
normalize_discord_header now status body h =
    let delay = or_else h.reset_after 0 in
    if delay == 0 && status == 429
    then from_body now body h
    else normalized (with_reset h.global (reset_with now delay h) h)
