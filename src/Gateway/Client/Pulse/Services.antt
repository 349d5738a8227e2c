-- ===== src/Gateway/Client/Pulse/Services.antt =====
-- At most one service pulses at a time, as long as no service draws the number of one that pulses.
use disgord.Base.{
  ℕ, ◌≡◌, ◌≢◌, List, [], ◌∷◌, Bool, true, false, arith, ◌==◌, if◌then◌else◌, ◌⊎◌, inl, inr,
}
use disgord.Gateway.Client.{Client}
use disgord.Gateway.Client.Pulse.{allowed_to_start_pulsating, stop_pulsating}

-- A client and the services that pulse.
pub record Pulse : Type 0 where
  pub client : Client
  pub active : List ℕ

abbrev pub is_active : ℕ → List ℕ → Bool
is_active s [] = false
is_active s (t ∷ ts) = if t == s then true else is_active s ts

abbrev pub without : ℕ → List ℕ → List ℕ
without s [] = []
without s (t ∷ ts) = if t == s then ts else t ∷ without s ts

abbrev pub started : ℕ → Pulse → Pulse
started s p =
    let (c, allowed) = allowed_to_start_pulsating s p.client in
    record { client = c; active = if allowed then s ∷ p.active else p.active }

abbrev pub stopped : ℕ → Pulse → Pulse
stopped s p = record { client = stop_pulsating s p.client; active = without s p.active }

-- A service with a new number tries to start, or one that pulses stops.
pub data Step : Pulse → Pulse → Type 0 where
  starts : (s : ℕ) (p : Pulse) → s ≢ 0 → is_active s p.active ≡ false → Step p (started s p)
  stops : (s : ℕ) (p : Pulse) → is_active s p.active ≡ true → Step p (stopped s p)

pub data Run : Pulse → Pulse → Type 0 where
  here : (p : Pulse) → Run p p
  then_step : {p q r : Pulse} → Run p q → Step q r → Run p r

-- Nobody pulses and the client's number is 0, or one service does and the number is its own.
abbrev pub IsExclusive : Pulse → Type 0
IsExclusive p =
    ((p.client.pulsating ≡ 0) × (p.active ≡ []))
    ⊎ ((p.client.pulsating ≢ 0) × (p.active ≡ p.client.pulsating ∷ []))

started-IsExclusive :
    (s : ℕ) (c : Client) (active : List ℕ)
    → s ≢ 0
    → is_active s active ≡ false
    → IsExclusive (record { client = c; active = active })
    → IsExclusive (started s (record { client = c; active = active }))
unfolding allowed_to_start_pulsating
started-IsExclusive s c active some_number fresh v = elim v [
  | inl idle ↦ inr (ground arith, ground arith)
  | inr busy ↦ inr (ground arith, ground arith)
]

stopped-IsExclusive :
    (s : ℕ) (c : Client) (active : List ℕ)
    → is_active s active ≡ true
    → IsExclusive (record { client = c; active = active })
    → IsExclusive (stopped s (record { client = c; active = active }))
unfolding stop_pulsating
stopped-IsExclusive s c active pulses v = elim v [
  | inl idle ↦ absurd (ground arith)
  | inr busy ↦ inl (ground arith, ground arith)
]

Step-IsExclusive : {p q : Pulse} → Step p q → IsExclusive p → IsExclusive q
Step-IsExclusive (starts s p some_number fresh) v =
    started-IsExclusive s p.client p.active some_number fresh v
Step-IsExclusive (stops s p pulses) v = stopped-IsExclusive s p.client p.active pulses v

-- However services start and stop from a client that nobody pulses for, at most one pulses at any
-- time, and the client's number tells which.
pub Run-IsExclusive :
    {p q : Pulse} → p.client.pulsating ≡ 0 → p.active ≡ [] → Run p q → IsExclusive q
Run-IsExclusive zero nobody (here p) = inl (zero, nobody)
Run-IsExclusive zero nobody (then_step run step) =
    Step-IsExclusive step (Run-IsExclusive zero nobody run)
