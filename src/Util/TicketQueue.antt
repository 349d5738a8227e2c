-- ===== src/Util/TicketQueue.antt =====
-- internal/util/ticketQueue.go: callers wait in line with a ticket until it is their turn. Tickets
-- are unbounded numbers here (`int` in the source). Each method holds the queue's mutex throughout,
-- so a history is a sequence of calls.
pub mod Order
pub mod Abandon
use disgord.Base.{
  ℕ, zero, suc, ◌+◌, ◌-◌, ◌≡◌, List, [], ◌∷◌, ◌++◌, Option, none, some, Bool, true, false, length,
  take, drop, ltb, ◌==◌, if◌then◌else◌,
}

pub record TicketQueue : Type 0 where
  pub tickets : List ℕ
  pub next_ticket : ℕ

unfoldable pub empty : TicketQueue
empty = record { tickets = []; next_ticket = 0 }

unfoldable pub new_ticket : TicketQueue → TicketQueue × ℕ
new_ticket q = (
  record q { tickets = q.tickets ++ q.next_ticket ∷ []; next_ticket = suc q.next_ticket },
  q.next_ticket,
)

-- The loop of `Delete`: the index of the first entry that is the ticket.
unfoldable pub index_of : ℕ → ℕ → List ℕ → Option ℕ
index_of ticket i [] = none
index_of ticket i (t ∷ ts) = if t == ticket then some i else index_of ticket (suc i) ts

-- What `Delete` does at the index. The source appends to `q.tickets[i:]`, not to `q.tickets[:i]`.
cut_at : List ℕ → Option ℕ → List ℕ
cut_at tickets none = tickets
cut_at tickets (some i) =
    if i == length tickets - 1 then take i tickets else drop i tickets ++ drop (suc i) tickets

unfoldable pub delete : ℕ → TicketQueue → TicketQueue
unfolding cut_at index_of
delete ticket q = record q { tickets = cut_at q.tickets (index_of ticket 0 q.tickets) }

module _ {S : Type 0} where
  -- `cb` runs on a state of the caller's, and says whether the caller may go.
  served : TicketQueue → S × Bool → TicketQueue × S × Bool
  served q (s, false) = (q, s, false)
  served q (s, true) = (
    record q { tickets = if ltb 1 (length q.tickets) then drop 1 q.tickets else take 0 q.tickets },
    s,
    true,
  )

  next_from : List ℕ → ℕ → (S → S × Bool) → TicketQueue → S → TicketQueue × S × Bool
  unfolding served
  next_from [] ticket cb q s = (q, s, false)
  next_from (t ∷ ts) ticket cb q s = if t == ticket then served q (cb s) else (q, s, false)

  unfoldable pub next : ℕ → (S → S × Bool) → TicketQueue → S → TicketQueue × S × Bool
  unfolding next_from
  next ticket cb q s = next_from q.tickets ticket cb q s

-- A call by any of the callers: take a ticket, ask whether it is this ticket's turn (with what the
-- callback would answer), or give the ticket up.
pub data Call : Type 0 where
  issue : Call
  ask : ℕ → Bool → Call
  abandon : ℕ → Call

unfoldable pub step : Call → TicketQueue → TicketQueue
step issue q = (new_ticket q).0
step (ask t free) q = (next t (λ (u : Unit {0}). (u, free)) q tt).0
step (abandon t) q = delete t q

-- The ticket that a call lets through.
unfoldable pub granted : Call → TicketQueue → List ℕ
granted issue q = []
granted (ask t free) q = if (next t (λ (u : Unit {0}). (u, free)) q tt).2 then t ∷ [] else []
granted (abandon t) q = []

unfoldable pub run : List Call → TicketQueue → TicketQueue
run [] q = q
run (c ∷ cs) q = run cs (step c q)

unfoldable pub all_granted : List Call → TicketQueue → List ℕ
all_granted [] q = []
all_granted (c ∷ cs) q = granted c q ++ all_granted cs (step c q)
