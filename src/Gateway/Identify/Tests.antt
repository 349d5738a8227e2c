-- ===== src/Gateway/Identify/Tests.antt =====
-- The theorems on the identify queue, with a limit of 2 and a timeout of 5 seconds.
use disgord.Base.{ℕ, ◌+◌, ◌*◌, ◌-◌, ◌≡◌, refl, [], ◌∷◌, some, false, arith}
use disgord.Gateway.Identify.{day, ShardSync, process_item}
use disgord.Gateway.Identify.Pause.{pause_after, process_item_pause}

abbrev second : ℕ
second = 1000000000

-- One identify so far, at the 100th second.
abbrev sync : ShardSync
sync = record {
  identifies_per24_h = 2;
  timeout = 5 * second;
  metric = record { reconnects = 100 * second ∷ [] };
}

process_item_pause_example :
    (wait : ℕ) × (process_item (160 * second) false sync
      ≡ some
          (record sync { metric = record { reconnects = 100 * second ∷ 160 * second ∷ [] } }, wait))
    × (pause_after (160 * second) 2 (5 * second) (100 * second ∷ 160 * second ∷ []) ≡ some wait)
process_item_pause_example = process_item_pause (160 * second) sync (omega arith) (omega arith, tt)

pause_is_a_day_short_of_a_minute :
    pause_after (160 * second) 2 (5 * second) (100 * second ∷ 160 * second ∷ [])
    ≡ some (day + 5 * second - 60 * second)
pause_is_a_day_short_of_a_minute = refl
