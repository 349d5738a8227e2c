-- ===== src/Httd/Bucket/Locks.antt =====
-- Who holds which lock, before and after a request.
use disgord.Base.{ℕ, ◌≡◌, ◌≤◌, ◌||◌, false, arith, ◌&&◌, not, if◌then◌else◌, ◌==◌}
use disgord.Util.AtomicLock.{acquire_lock, unlock}
use disgord.Httd.Bucket.{
  LtBucket, Exchange, active, selective_global_lock, acquire, release, transaction,
  update_after_request, refresh, decrement,
}

-- Each lock is free or held, and the flag is down.
pub record IsIdle (b g : LtBucket) : Type 0 where
  pub own : b.atomic_lock ≤ 1
  pub shared : g.atomic_lock ≤ 1
  pub unused : b.using_global ≡ false

-- A bucket is acquired exactly if its lock is free, and the global bucket is idle or its lock is
-- free. Then its lock is held; the global lock is held too, and the flag is up, if the global bucket
-- is still active when it is read again, and else the global lock is as it was. If the bucket is not
-- acquired, both locks and the flag are as they were.
acquire_lem :
    (clock : ℕ → ℕ) (b g : LtBucket)
    → IsIdle b g
    → let (b', g', locked) = acquire clock (b, g) in
      (locked ≡ (b.atomic_lock == 0 && (not (active (clock 0) g) || (g.atomic_lock == 0))))
      × (b'.using_global ≡ (locked && active (clock 0) g && active (clock 1) g))
      × (b'.atomic_lock ≡ (if locked then 1 else b.atomic_lock))
      × (g'.atomic_lock ≡ (if b'.using_global then 1 else g.atomic_lock))
unfolding acquire selective_global_lock acquire_lock unlock active
acquire_lem clock b g h = ground arith

-- However a request ends that has the locks (late, cancelled, failed or with any response), its own
-- lock is free afterwards, the global lock is free if the request used it and as it was if not, and
-- the flag is down.
transaction_releases :
    (e : Exchange) (b g : LtBucket)
    → b.atomic_lock ≡ 1
    → g.atomic_lock ≤ 1
    → let (b', g', result) = transaction e (b, g) in
      (b'.atomic_lock ≡ 0)
      × (b'.using_global ≡ false)
      × (g'.atomic_lock ≡ (if b.using_global then 0 else g.atomic_lock))
unfolding transaction release unlock update_after_request refresh decrement
transaction_releases e b g own shared = ground arith
