-- ===== src/Util/AtomicLock.antt =====
-- internal/util/atomicLock.go: a compare-and-swap lock. The word holds 0 or 1.
use disgord.Base.{ℕ, suc, ◌+◌, ◌≤◌, Bool, true, false, List, [], ◌∷◌, arith, ◌==◌, if◌then◌else◌}

abbrev pub AtomicLock : Type 0
AtomicLock = ℕ

-- `CompareAndSwapInt32(l, old, new)`.
abbrev compare_and_swap : AtomicLock → ℕ → ℕ → AtomicLock × Bool
compare_and_swap l old new = if l == old then (new, true) else (l, false)

unfoldable pub acquire_lock : AtomicLock → AtomicLock × Bool
acquire_lock l = compare_and_swap l 0 1

unfoldable pub is_locked : AtomicLock → Bool
is_locked l = l == 1

unfoldable pub unlock : AtomicLock → AtomicLock
unlock l = (compare_and_swap l 1 0).0

-- A call by any goroutine; the calls are atomic, so a history is a list of them.
pub data Call : Type 0 where
  acquire release : Call

unfoldable pub run : AtomicLock → List Call → AtomicLock
run l [] = l
run l (acquire ∷ cs) = run (acquire_lock l).0 cs
run l (release ∷ cs) = run (unlock l) cs

-- The calls of `AcquireLock` in a history that returned true.
unfoldable pub acquired : AtomicLock → List Call → ℕ
acquired l [] = 0
acquired l (acquire ∷ cs) = (if (acquire_lock l).1 then 1 else 0) + acquired (acquire_lock l).0 cs
acquired l (release ∷ cs) = acquired (unlock l) cs

unfoldable pub releases : List Call → ℕ
releases [] = 0
releases (acquire ∷ cs) = releases cs
releases (release ∷ cs) = suc (releases cs)

-- From a word of 0 or 1, over any history of calls: the acquisitions that succeed, and one more if
-- the lock is held at the start, are at most the releases, and one more if it is held at the end.
-- So two holders never overlap: a second success needs a release in between.
pub acquired_le :
    (l : AtomicLock) (cs : List Call) → l ≤ 1 → acquired l cs + l ≤ releases cs + run l cs
unfolding acquired releases run acquire_lock unlock
acquired_le l [] h = omega arith
acquired_le l (acquire ∷ cs) h = ground (arith, acquired_le l cs, acquired_le 1 cs)
acquired_le l (release ∷ cs) h = ground (arith, acquired_le l cs, acquired_le 0 cs)
