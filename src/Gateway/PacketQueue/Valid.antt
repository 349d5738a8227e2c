-- ===== src/Gateway/PacketQueue/Valid.antt =====
-- internal/gateway/queue.go: what holds of the packet queue between two locks, however the calls of
-- several goroutines are mixed.
use mathlib.Core.Option
use disgord.Base.{
  ◌>>=◌, ℕ, zero, suc, get_elem?, ◌+◌, ◌≤◌, ◌<◌, ◌≡◌, refl, inl, inr, List, [], ◌∷◌, ◌++◌, Option,
  none, some, arith, length, ◌==◌, if◌then◌else◌, length-append, Bool-cases, Option-cases,
}
use disgord.Base.Int.{pos}
use disgord.Gateway.Command.{ClientPacket, OpCode, event_status_update}
use disgord.Gateway.PacketQueue.{
  PacketQueue, QueueError, no_existing_op, new_client_pkt_queue, overwrite, add_by_overwrite,
  append_packet, add, try, steal,
}
use disgord.Gateway.PacketQueue.Flush.{tried, try_lem}

-- How many packets have the operation code.
abbrev pub count_op : OpCode → List ClientPacket → ℕ
count_op op [] = 0
count_op op (m ∷ ms) = let rest = count_op op ms in if m.op == op then suc rest else rest

pub record IsValid (n : ℕ) (c : PacketQueue) : Type 0 where
  pub limited : c.limit ≡ pos n
  pub bounded : length c.messages ≤ n
  pub one_status : count_op event_status_update c.messages ≤ 1

-- A replacement keeps the number of packets, in all and of each operation code.
overwrite_counts :
    (msg : ClientPacket) (op : OpCode) (ms : List ClientPacket) {ms' : List ClientPacket}
    → overwrite msg ms ≡ some ms'
    → (length ms' ≡ length ms) × (count_op op ms' ≡ count_op op ms)
unfolding overwrite
overwrite_counts msg op [] e = absurd (ground arith)
overwrite_counts msg op (m ∷ ms) {ms' = ms'} e = elim (Bool-cases (m.op == msg.op)) [
  | inl hit ↦ ground arith
  | inr miss ↦ elim (Option-cases (overwrite msg ms)) [
    | inl f ↦ absurd (ground arith)
    | inr (rest, f) ↦ let ih = overwrite_counts msg op ms {ms' = rest} f in ground arith
  ]
]

overwrite_fails :
    (msg : ClientPacket) (ms : List ClientPacket) → overwrite msg ms ≡ none → count_op msg.op ms ≡ 0
unfolding overwrite
overwrite_fails msg [] e = refl
overwrite_fails msg (m ∷ ms) e = elim (Bool-cases (m.op == msg.op)) [
  | inl hit ↦ absurd (ground arith)
  | inr miss ↦ elim (Option-cases (overwrite msg ms)) [
    | inl f ↦ ground (arith, overwrite_fails msg ms f)
    | inr (rest, f) ↦ absurd (ground arith)
  ]
]

count_op-append :
    (op : OpCode) (xs ys : List ClientPacket)
    → count_op op (xs ++ ys) ≡ count_op op xs + count_op op ys
count_op-append op [] ys = omega arith
count_op-append op (x ∷ xs) ys = ground (arith, count_op-append op xs ys)

pub new-IsValid : (n : ℕ) → 0 < n → IsValid n (new_client_pkt_queue (pos n))
unfolding new_client_pkt_queue
new-IsValid n h = ground arith

pub add_by_overwrite-IsValid :
    (n : ℕ) (msg : ClientPacket) (c : PacketQueue)
    → IsValid n c
    → IsValid n (add_by_overwrite msg c).0
unfolding add_by_overwrite
add_by_overwrite-IsValid n msg c v = elim (Option-cases (overwrite msg c.messages)) [
  | inl e ↦ ground arith
  | inr (ms, e) ↦ ground (arith, overwrite_counts msg event_status_update c.messages e)
]

pub add-IsValid :
    (n : ℕ) (msg : ClientPacket) (c : PacketQueue) → IsValid n c → IsValid n (add msg c).0
unfolding add add_by_overwrite
add-IsValid n msg c v = elim (Option-cases (overwrite msg c.messages)) [
  | inl e ↦ ground (
    arith,
    overwrite_fails msg c.messages e,
    length-append c.messages (msg ∷ []),
    count_op-append event_status_update c.messages (msg ∷ []),
  )
  | inr (ms, e) ↦ ground (
    arith,
    overwrite_counts msg event_status_update c.messages e,
    length-append c.messages (msg ∷ []),
    count_op-append event_status_update c.messages (msg ∷ []),
  )
]

-- A queue in use: `pending` are the status updates whose `Add` has found none to overwrite and has not
-- taken the lock again; `overlaps` counts those that got there while another one was pending.
pub record Shared : Type 0 where
  pub queue : PacketQueue
  pub pending : List ClientPacket
  pub overlaps : ℕ

abbrev pub new_shared : ℕ → Shared
unfolding new_client_pkt_queue
new_shared n = record { queue = new_client_pkt_queue (pos n); pending = []; overlaps = 0 }

-- What holds a lock: the start of `Add`, the rest of the pending one at a position, the other calls. A
-- try says what the write returns.
pub data Call : Type 0 where
  adds overwrites : ClientPacket → Call
  goes_on : ℕ → Call
  tries : Option ℕ → Call
  steals : Call

abbrev without : ℕ → List ClientPacket → List ClientPacket
without i [] = []
without zero (m ∷ ms) = ms
without (suc i) (m ∷ ms) = m ∷ without i ms

-- After `AddByOverwrite` in `Add`.
wait_or_end : ClientPacket → PacketQueue × Option QueueError → Shared → Shared
wait_or_end msg (q, none) s = record s { queue = q }
wait_or_end msg (q, some e) s = record s {
  queue = q;
  pending = msg ∷ s.pending;
  overlaps = if length s.pending == 0 then s.overlaps else suc s.overlaps;
}

start_add : ClientPacket → Shared → Shared
unfolding wait_or_end
start_add msg s =
    if msg.op == event_status_update
    then wait_or_end msg (add_by_overwrite msg s.queue) s
    else record s { queue = (append_packet msg s.queue).0 }

end_add : ℕ → Option ClientPacket → Shared → Shared
end_add i none s = s
end_add i (some msg) s = record s {
  queue = (append_packet msg s.queue).0;
  pending = without i s.pending;
}

unfoldable pub step : Call → Shared → Option Shared
unfolding start_add end_add
step (adds msg) s = some (start_add msg s)
step (goes_on i) s = some (end_add i (get_elem? s.pending i) s)
step (overwrites msg) s = some (record s { queue = (add_by_overwrite msg s.queue).0 })
step (tries result) s =
    Option.map (λ ((q, r) : PacketQueue × Option ℕ). record s { queue = q })
      (try (λ _. result) s.queue)
step steals s = some (record s { queue = (steal s.queue).0 })

unfoldable pub run : List Call → Shared → Option Shared
run [] s = some s
run (call ∷ calls) s = step call s >>= run calls

-- The queue keeps its limit and its bound, and its status updates and the pending ones are at most one
-- more than the overlaps.
pub record IsShared (n : ℕ) (s : Shared) : Type 0 where
  pub limited : s.queue.limit ≡ pos n
  pub bounded : length s.queue.messages ≤ n
  pub statuses : count_op event_status_update s.queue.messages + length s.pending ≤ suc s.overlaps

length-without :
    (i : ℕ) (ms : List ClientPacket) (m : ClientPacket)
    → get_elem? ms i ≡ some m
    → suc (length (without i ms)) ≡ length ms
length-without i [] m e = ground (arith, e)
length-without zero (x ∷ ms) m e = refl
length-without (suc i) (x ∷ ms) m e = omega (arith, length-without i ms m e)

append_packet_lem :
    (n : ℕ) (msg : ClientPacket) (q : PacketQueue)
    → q.limit ≡ pos n
    → length q.messages ≤ n
    → let q' = (append_packet msg q).0 in
      (q'.limit ≡ pos n)
      × (length q'.messages ≤ n)
      × (count_op event_status_update q'.messages
          ≤ count_op event_status_update q.messages + count_op event_status_update (msg ∷ []))
unfolding append_packet
append_packet_lem n msg q l b = ground (
  arith,
  l,
  b,
  length-append q.messages (msg ∷ []),
  count_op-append event_status_update q.messages (msg ∷ []),
)

none_there :
    (msg : ClientPacket) (q : PacketQueue)
    → overwrite msg q.messages ≡ none
    → add_by_overwrite msg q ≡ (q, some no_existing_op)
unfolding add_by_overwrite
none_there msg q e = rw (e, add_by_overwrite) refl

one_there :
    (msg : ClientPacket) (q : PacketQueue) (ms : List ClientPacket)
    → overwrite msg q.messages ≡ some ms
    → add_by_overwrite msg q ≡ (record q { messages = ms }, none)
unfolding add_by_overwrite
one_there msg q ms e = rw (e, add_by_overwrite) refl

start_add-IsShared :
    (n : ℕ) (msg : ClientPacket) (s : Shared) → IsShared n s → IsShared n (start_add msg s)
unfolding start_add wait_or_end
start_add-IsShared n msg s v = elim (Bool-cases (msg.op == event_status_update)) [
  | inr other ↦
      let (l, b, c) = append_packet_lem n msg s.queue v.limited v.bounded in
      rw other
        (record { limited = l; bounded = b; statuses = ground (arith, c, v.statuses, other) })
  | inl status ↦ elim (Option-cases (overwrite msg s.queue.messages)) [
    | inl miss ↦
        rw (status, none_there msg s.queue miss)
          (record {
            limited = v.limited;
            bounded = v.bounded;
            statuses =
                ground (arith, status, v.statuses, overwrite_fails msg s.queue.messages miss);
          })
    | inr (ms, hit) ↦
        let (l, c) = overwrite_counts msg event_status_update s.queue.messages hit in
        rw (status, one_there msg s.queue ms hit)
          (record {
            limited = v.limited;
            bounded = omega (arith, l, v.bounded);
            statuses = omega (arith, c, v.statuses);
          })
  ]
]

end_add-IsShared :
    (n i : ℕ) (o : Option ClientPacket) (s : Shared)
    → get_elem? s.pending i ≡ o
    → IsShared n s
    → IsShared n (end_add i o s)
unfolding end_add
end_add-IsShared n i none s e v = v
end_add-IsShared n i (some msg) s e v =
    let (l, b, c) = append_packet_lem n msg s.queue v.limited v.bounded in
    record {
      limited = l;
      bounded = b;
      statuses = ground (arith, c, v.statuses, length-without i s.pending msg e);
    }

add_by_overwrite-IsShared :
    (n : ℕ) (msg : ClientPacket) (s : Shared)
    → IsShared n s
    → IsShared n (record s { queue = (add_by_overwrite msg s.queue).0 })
unfolding add_by_overwrite
add_by_overwrite-IsShared n msg s v = elim (Option-cases (overwrite msg s.queue.messages)) [
  | inl miss ↦ rw (add_by_overwrite, miss) v
  | inr (ms, hit) ↦
      let (l, c) = overwrite_counts msg event_status_update s.queue.messages hit in
      rw (add_by_overwrite, hit)
        (record {
          limited = v.limited;
          bounded = omega (arith, l, v.bounded);
          statuses = omega (arith, c, v.statuses);
        })
]

tried-IsShared :
    (n : ℕ) (result : Option ℕ) (ms : List ClientPacket) (s : Shared)
    → s.queue.messages ≡ ms
    → IsShared n s
    → IsShared n (record s {
      queue = record s.queue { messages = (tried (λ _. result) s.queue.messages).0 };
    })
tried-IsShared n result [] s e v = rw e (record {
  limited = v.limited;
  bounded = omega arith;
  statuses = ground (arith, e, v.statuses);
})
tried-IsShared n (some x) (m ∷ ms) s e v = rw e (record {
  limited = v.limited;
  bounded = ground (arith, e, v.bounded);
  statuses = ground (arith, e, v.statuses);
})
tried-IsShared n none (m ∷ ms) s e v = rw e (record {
  limited = v.limited;
  bounded = ground (arith, e, v.bounded);
  statuses = ground (arith, e, v.statuses);
})

step-IsShared :
    (n : ℕ) (call : Call) (s : Shared)
    → IsShared n s
    → (s' : Shared) × (step call s ≡ some s') × IsShared n s'
unfolding step
step-IsShared n (adds msg) s v = (start_add msg s, refl, start_add-IsShared n msg s v)
step-IsShared n (goes_on i) s v = (
  end_add i (get_elem? s.pending i) s,
  refl,
  end_add-IsShared n i (get_elem? s.pending i) s refl v,
)
step-IsShared n (overwrites msg) s v = (
  record s { queue = (add_by_overwrite msg s.queue).0 },
  refl,
  add_by_overwrite-IsShared n msg s v,
)
step-IsShared n (tries result) s v = (
  record s { queue = record s.queue { messages = (tried (λ _. result) s.queue.messages).0 } },
  rw (try_lem (λ _. result) s.queue.messages s.queue.limit) refl,
  tried-IsShared n result s.queue.messages s refl v,
)
step-IsShared n steals s v = (
  record s { queue = record s.queue { messages = [] } },
  unfold steal in refl,
  record { limited = v.limited; bounded = omega arith; statuses = omega (arith, v.statuses) },
)

run_from-IsShared :
    (n : ℕ) (calls : List Call) (s : Shared)
    → IsShared n s
    → (s' : Shared) × (run calls s ≡ some s') × IsShared n s'
unfolding run
run_from-IsShared n [] s v = (s, refl, v)
run_from-IsShared n (call ∷ calls) s v =
    let (d, e, w) = step-IsShared n call s v in
    let (s', e', w') = run_from-IsShared n calls d w in (s', rw e e', w')

-- A queue made with a limit above 0 never panics, however the locks of its callers are mixed: it keeps
-- its limit, it holds at most that many packets, and its status updates, with those that `Add` is about
-- to append, are at most one more than the `Add`s that found none to overwrite while another had
-- found none and not yet appended its own.
pub run-IsShared :
    (n : ℕ) (calls : List Call)
    → 0 < n
    → (s : Shared) × (run calls (new_shared n) ≡ some s) × IsShared n s
unfolding new_client_pkt_queue
run-IsShared n calls h =
    run_from-IsShared n calls (new_shared n)
      (record { limited = ground arith; bounded = omega arith; statuses = omega arith })
