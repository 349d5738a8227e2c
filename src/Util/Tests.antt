-- ===== src/Util/Tests.antt =====
-- Runs of internal/util at concrete inputs, and the theorems at inputs that meet their hypotheses.
use disgord.Base.{ℕ, ◌≡◌, refl, List, [], ◌∷◌, ◌++◌, true, false, arith}
use disgord.Util.Queue.{Queue}
use disgord.Util.AtomicLock.{acquire, release, acquired, releases, acquired_le}
use disgord.Util.AtomicLock
use disgord.Util.TicketQueue.{
  TicketQueue, Call, issue, ask, abandon, empty, delete, step, run, all_granted, granted,
  new_ticket, next,
}
use disgord.Util.TicketQueue.Order.{issued, all_granted-run}
use disgord.Util.TicketQueue.Abandon.{abandon_blocks}

abbrev one_item : Queue ℕ
one_item = record { items = 1 ∷ [] }

abbrev lock_calls : List AtomicLock.Call
lock_calls = acquire ∷ acquire ∷ release ∷ acquire ∷ []

lock_calls_acquire_twice : acquired 0 lock_calls ≡ 2
unfolding acquired AtomicLock.acquire_lock AtomicLock.unlock
lock_calls_acquire_twice = refl

abbrev patient_calls : List Call
patient_calls = issue ∷ issue ∷ ask 1 true ∷ ask 0 false ∷ ask 0 true ∷ issue ∷ []

all_granted-run_example :
    all_granted patient_calls empty ++ (run patient_calls empty).tickets
    ≡ issued (run patient_calls empty).next_ticket
all_granted-run_example = all_granted-run patient_calls tt

patient_calls_grant : all_granted patient_calls empty ≡ 0 ∷ []
unfolding all_granted step empty granted new_ticket next
patient_calls_grant = refl

abbrev three_wait : TicketQueue
three_wait = record { tickets = 4 ∷ 5 ∷ 6 ∷ []; next_ticket = 7 }

delete_five : (delete 5 three_wait).tickets ≡ 5 ∷ 6 ∷ 6 ∷ []
unfolding delete
delete_five = refl

abandon_blocks_example :
    all_granted
      (ask 6 true ∷ issue ∷ ask 4 true ∷ abandon 6 ∷ ask 7 true ∷ [])
      (step (abandon 5) three_wait)
    ≡ []
abandon_blocks_example = abandon_blocks 5 6 7 (4 ∷ []) [] _ (omega arith) (omega arith)
