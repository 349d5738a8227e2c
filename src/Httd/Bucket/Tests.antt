-- ===== src/Httd/Bucket/Tests.antt =====
-- The theorems on a rate limit bucket, at concrete buckets and requests.
use disgord.Base.{ℕ, ◌≡◌, refl, true, ◌*◌, ◌≤◌, List, [], ◌∷◌, none, some, false, arith}
use disgord.Httd.Bucket.{LtBucket, Header, Exchange, selective_global_lock}
use disgord.Httd.Bucket.Global.{transact_all, transact_all-unlimited}
use disgord.Httd.Bucket.Limits.{early, early_le}

abbrev second : ℕ
second = 1000000000

-- Two requests are left until a reset in ten seconds.
abbrev limited : LtBucket
limited = record {
  atomic_lock = 0;
  hash = "abc";
  remaining = some 2;
  reset_time = 1600000010 * second;
  discord_reset_time = 1600000010 * second;
  updated_at = 0;
  using_global = false;
}

abbrev in_use : LtBucket
in_use = record limited { atomic_lock = 1 }

-- The clock of the tests stands still.
abbrev at_start : ℕ → ℕ
at_start i = 1600000000 * second

abbrev answer : ℕ → Header
answer left = record {
  date = some (1600000000 * second);
  bucket_hash = "abc";
  empty_hash = false;
  global = false;
  reset = some 1600000010000;
  remaining = some left;
}

abbrev exchange : ℕ → Exchange
exchange left = record {
  now = 1600000001 * second;
  checked = 1600000001 * second;
  deadline = none;
  cancelled = false;
  response = some (answer left, 200);
  later = at_start;
}

abbrev exchanges : List ((ℕ → ℕ) × Exchange)
exchanges = (at_start, exchange 1) ∷ (at_start, exchange 0) ∷ (at_start, exchange 0) ∷ []

abbrev new_global : LtBucket
new_global = record limited { remaining = none; hash = ""; discord_reset_time = 0 }

early_le_example : early exchanges (limited, new_global) ≤ 2
early_le_example = early_le exchanges limited new_global 2 refl refl refl (ground arith)

-- A response 429 on everything, which says when the limit resets but not how many requests remain.
abbrev limits_all : Exchange
limits_all = record (exchange 0) {
  response = some (record (answer 0) { global = true; remaining = none }, 429);
}

transact_all-unlimited_example :
    let (b, g) = transact_all (limits_all ∷ exchange 1 ∷ []) (in_use, new_global) in
    selective_global_lock at_start (b, g) ≡ (b, g, some false)
transact_all-unlimited_example =
    transact_all-unlimited (limits_all ∷ exchange 1 ∷ []) at_start in_use new_global refl
      (refl, (refl, tt))
