-- ===== src/Gateway/Identify.antt =====
-- internal/gateway/shard_sync.go, metric.go and util.go (rotateByTime): the queue that spaces the
-- identifies of the shards. Times and durations are nanoseconds, with `now` as an argument; a panic is
-- `none`. A duration below 0 makes a timer fire at once, so it is 0 here.
pub mod Pause
mod Tests
use disgord.Base.{
  ℕ, zero, suc, ◌+◌, ◌*◌, ◌-◌, List, [], ◌∷◌, ◌++◌, Option, none, some, Bool, ltb, leb, ◌==◌, ◌||◌,
  length, drop, get_elem?, if◌then◌else◌, ◌>>=◌,
}

abbrev pub day : ℕ
day = 24 * 3600 * 1000000000

-- The loop of `rotateByTime`: how many entries at the front are after the limit.
unfoldable pub leading : ℕ → List ℕ → ℕ
leading limit [] = 0
leading limit (t ∷ ts) = let rest = leading limit ts in if ltb limit t then suc rest else 0

-- The entries behind those move to the front, and the rest is cut off.
unfoldable pub rotate_by_time : List ℕ → ℕ → List ℕ
rotate_by_time times limit = drop (leading limit times) times

-- The identifies so far, oldest first.
pub record IdentifyMetric : Type 0 where
  pub reconnects : List ℕ

-- `limit` is two days ahead, where the name of the constant suggests two days ago.
unfoldable pub cleanup : ℕ → IdentifyMetric → IdentifyMetric
cleanup now m = record { reconnects = rotate_by_time m.reconnects (now + 2 * day) }

unfoldable pub reverse : List ℕ → List ℕ
reverse [] = []
reverse (t ∷ ts) = reverse ts ++ t ∷ []

-- The loop of `ReconnectsSince`, over the entries from the last to the first.
unfoldable pub count_before : ℕ → List ℕ → ℕ
count_before limit [] = 0
count_before limit (t ∷ ts) =
    let rest = count_before limit ts in if ltb t limit then suc rest else 0

unfoldable pub reconnects_since : ℕ → ℕ → IdentifyMetric → IdentifyMetric × ℕ
reconnects_since now d m = (cleanup now m, count_before (now + d) (reverse m.reconnects))

pub record ShardSync : Type 0 where
  pub identifies_per24_h : ℕ
  pub timeout : ℕ
  pub metric : IdentifyMetric

-- How long the next shard waits, when the metric counted `count`; the clock reads `now`. The number
-- `identifiesPer24H - 1` wraps around at 0, and a negative index panics.
unfoldable pub pause : ℕ → ℕ → ShardSync → Option ℕ
pause now count s =
    let present = length s.metric.reconnects in
    let limited = do
      oldest ← get_elem? s.metric.reconnects (present - s.identifies_per24_h)
      some ((s.timeout + day + oldest) - now)
    in if s.identifies_per24_h == 0 || leb count (s.identifies_per24_h - 1)
      then some s.timeout
      else if ltb present s.identifies_per24_h
      then none
      else limited

-- One round of `process`: the callback fails or succeeds, and then the queue waits.
unfoldable pub process_item : ℕ → Bool → ShardSync → Option (ShardSync × ℕ)
process_item now fails s =
    let m : IdentifyMetric = record { reconnects = s.metric.reconnects ++ now ∷ [] } in
    let (m', count) = reconnects_since now day m in
    let s' = record s { metric = m' } in
    let succeed = do wait ← pause now count s'; some (s', wait)
    in if fails then some (s, 0) else succeed
