-- ===== src/Httd/Headers/Resets.antt =====
-- internal/httd/header.go, internal/httd/bucket.go: when the limit of a response resets, by the local
-- clock.
use disgord.Base.{ℕ, ◌+◌, ◌-◌, ◌*◌, ◌<◌, ◌≤◌, ◌≡◌, none, some, arith, ◌==◌, ◌&&◌, if◌then◌else◌}
use disgord.Httd.Bucket.{Header, or_else, limit_of}
use disgord.Httd.Headers.{
  RawHeader, LimitBody, no_body, unreadable, null, rate_limit, normalized, normalize_discord_header,
  from_body, with_reset, reset_with, arrival,
}

-- The delay that a response asks for, in milliseconds: what the header says, or else the body of a
-- response 429.
abbrev pub delay_of : ℕ → LimitBody → RawHeader → ℕ
delay_of status body h =
    let delay = or_else h.reset_after 0 in
    if delay == 0 && status == 429 then elim body [ rate_limit global d ↦ d | _ ↦ 0 ] else delay

-- Normalised headers keep the date and get the reset that the delay leads to.
record IsNormal (now status : ℕ) (body : LimitBody) (h : RawHeader) (h' : Header) : Type 0 where
  date : h'.date ≡ h.date
  reset : h'.reset ≡ reset_with now (delay_of status body h) h

normalize-IsNormal :
    (now status : ℕ) (body : LimitBody) (h : RawHeader) (h' : Header)
    → normalize_discord_header now status body h ≡ normalized h'
    → IsNormal now status body h h'
unfolding normalize_discord_header from_body with_reset
normalize-IsNormal now status no_body h h' e = record {
  date = ground (arith, e);
  reset = ground (arith, e);
}
normalize-IsNormal now status unreadable h h' e = record {
  date = ground (arith, e);
  reset = ground (arith, e);
}
normalize-IsNormal now status null h h' e = record {
  date = ground (arith, e);
  reset = ground (arith, e);
}
normalize-IsNormal now status (rate_limit global d) h h' e = record {
  date = ground (arith, e);
  reset = ground (arith, e);
}

module _ (now status : ℕ) (body : LimitBody) (h : RawHeader) (h' : Header) (date : ℕ)
    (clock : ℕ → ℕ) where
  -- A response with a date, without a reset of its own, that asks for a delay, in its headers or in the
  -- body of a 429: the limit resets when that delay has passed since the local time at which the bucket
  -- reads the headers, up to less than a millisecond.
  pub limit_of-normalize :
      normalize_discord_header now status body h ≡ normalized h'
      → h.date ≡ some date
      → h.reset ≡ none
      → 0 < delay_of status body h
      → ((limit_of clock h').reset ≤ clock 1 + delay_of status body h * 1000000)
        × (clock 1 + delay_of status body h * 1000000 < (limit_of clock h').reset + 1000000)
  unfolding reset_with
  limit_of-normalize e d r pos =
      let n = normalize-IsNormal now status body h h' e in
      ground (arith, n.date, n.reset, d, r, pos)

  -- With a reset of its own, the same response makes the limit reset that delay after the local time of
  -- arrival, and later or earlier yet by what the local clock was ahead of or behind the date when the
  -- bucket read the headers.
  limit_of-normalize_skewed :
      (reset : ℕ)
      → normalize_discord_header now status body h ≡ normalized h'
      → h.date ≡ some date
      → h.reset ≡ some reset
      → 0 < delay_of status body h
      → (limit_of clock h').reset
        ≡ ((arrival now h + delay_of status body h) * 1000000 + clock 1) - date
  unfolding reset_with
  limit_of-normalize_skewed reset e d r pos =
      let n = normalize-IsNormal now status body h h' e in
      ground (arith, n.date, n.reset, d, r, pos)
