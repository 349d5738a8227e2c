-- ===== src/Util/TicketQueue/Order.antt =====
-- Who goes first: tickets are served in the order in which they were issued.
use mathlib.Core.List.{append-nil, append_assoc}
use disgord.Base.{
  ℕ, zero, suc, ◌≡◌, refl, sym, ap, ◌∙◌, List, [], ◌∷◌, ◌++◌, Bool, true, false, arith,
}
use disgord.Util.TicketQueue.{
  TicketQueue, Call, issue, ask, abandon, empty, new_ticket, next, step, granted, run, all_granted,
}

-- No caller gives up.
abbrev pub IsPatient : List Call → Type 0
IsPatient [] = Unit
IsPatient (issue ∷ cs) = IsPatient cs
IsPatient (ask t free ∷ cs) = IsPatient cs
IsPatient (abandon t ∷ cs) = ⊥

-- The first `n` tickets.
pub issued : ℕ → List ℕ
issued zero = []
issued (suc n) = issued n ++ n ∷ []

ask_lem :
    (t : ℕ) (free : Bool) (ts : List ℕ) (n : ℕ)
    → let q : TicketQueue = record { tickets = ts; next_ticket = n } in
      (granted (ask t free) q ++ (step (ask t free) q).tickets ≡ ts)
      × ((step (ask t free) q).next_ticket ≡ n)
unfolding granted step next
ask_lem t free [] n = (refl, refl)
ask_lem t true (u ∷ []) n = ground arith
ask_lem t free (u ∷ v ∷ ts) n = ground arith
ask_lem t false (u ∷ []) n = ground arith

step-issued :
    (c : Call) (cs : List Call) (done : List ℕ) (q : TicketQueue)
    → IsPatient (c ∷ cs)
    → done ++ q.tickets ≡ issued q.next_ticket
    → done ++ granted c q ++ (step c q).tickets ≡ issued (step c q).next_ticket
step-issued issue cs done q w h =
    unfold granted step new_ticket issued in
    simp append_assoc (sym (append_assoc done q.tickets _) ∙ ap (λ ts. ts ++ q.next_ticket ∷ []) h)
step-issued (ask t free) cs done q w h =
    let (same, kept) = ask_lem t free q.tickets q.next_ticket in
    append_assoc done _ _ ∙ ap (◌++◌ done) same ∙ h ∙ ap issued (sym kept)
step-issued (abandon t) cs done q w h = absurd w

IsPatient-tail : (c : Call) (cs : List Call) → IsPatient (c ∷ cs) → IsPatient cs
IsPatient-tail issue cs w = w
IsPatient-tail (ask t free) cs w = w
IsPatient-tail (abandon t) cs w = absurd w

run-issued :
    (cs : List Call) (done : List ℕ) (q : TicketQueue)
    → IsPatient cs
    → done ++ q.tickets ≡ issued q.next_ticket
    → done ++ all_granted cs q ++ (run cs q).tickets ≡ issued (run cs q).next_ticket
unfolding all_granted run
run-issued [] done q w h = rw append-nil h
run-issued (c ∷ cs) done q w h =
    rw (← append_assoc done (granted c q) (all_granted cs (step c q))) (
      run-issued cs (done ++ granted c q) (step c q) (IsPatient-tail c cs w)
        (step-issued c cs done q w h))

-- In any history in which nobody gives up, the tickets let through so far, followed by those that
-- still wait, are exactly the issued ones in the order of issue: nobody overtakes, nobody is let
-- through twice, and no ticket is lost.
pub all_granted-run :
    (cs : List Call)
    → IsPatient cs
    → all_granted cs empty ++ (run cs empty).tickets ≡ issued (run cs empty).next_ticket
unfolding empty
all_granted-run cs w = run-issued cs [] empty w (unfold issued in refl)
