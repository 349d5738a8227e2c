-- ===== src/Gateway/Client/Link/Backoff.antt =====
-- How long `reconnectLoop` waits, and that it gets there.
use disgord.Base.{
  ℕ, zero, suc, ◌+◌, ◌*◌, ◌≤◌, ◌<◌, ◌≡◌, ◌≢◌, refl, ◌∙◌, ap, List, [], ◌∷◌, ◌++◌, none, some, true,
  false, str_eq, arith, is_some, All, length, get_elem?,
}
use disgord.Gateway.Client.{Client}
use disgord.Gateway.Client.Link.{
  Attempt, runs, skips, sent, Socket, connected, next_delay, internal_connect, reconnect_loop,
  reconnect, disconnect,
}

-- The attempt cannot open a connection, and no shutdown interrupts the sleep behind it.
abbrev pub IsFailing : Attempt → Type 0
IsFailing a = (a.queueing ≢ skips) × (a.opens ≡ false) × (a.shutdown ≡ false)

-- The attempt opens a connection, and the identify or resume is sent.
abbrev pub IsGood : Attempt → Type 0
IsGood a = (a.queueing ≡ runs) × (a.opens ≡ true) × (a.wait ≡ sent)

-- Every wait lies between three seconds and five minutes.
waits_bounded :
    (try delay : ℕ) (attempts : List Attempt) (c : Client)
    → 3 ≤ delay
    → delay ≤ 300
    → All (λ w. (3 ≤ w) × (w ≤ 300)) (reconnect_loop try delay attempts c).waits
unfolding reconnect_loop next_delay
waits_bounded try delay [] c lo hi = tt
waits_bounded try delay (a ∷ rest) c lo hi =
    ground (arith, waits_bounded try (next_delay try delay) rest (internal_connect a c).0)

failing_connect : (a : Attempt) (c : Client) → IsFailing a → is_some (internal_connect a c).1 ≡ true
unfolding internal_connect
failing_connect a c h = ground arith

-- A failing attempt leaves a client that is not connected as ready for the next attempt.
record IsKept (c c' : Client) : Type 0 where
  still_down : c'.is_connected ≡ false
  same_endpoint : c'.endpoint ≡ c.endpoint

failing_keeps :
    (a : Attempt) (c : Client)
    → IsFailing a
    → c.is_connected ≡ false
    → IsKept c (internal_connect a c).0
unfolding internal_connect
failing_keeps a c h down = ground arith

good_connect :
    (a : Attempt) (c : Client)
    → IsGood a
    → c.is_connected ≡ false
    → str_eq c.endpoint "" ≡ false
    → (is_some (internal_connect a c).1 ≡ false) × ((internal_connect a c).0.is_connected ≡ true)
unfolding internal_connect
good_connect a c h down named = ground arith

-- While attempts keep failing, the waits grow by four seconds each, as long as they stay within
-- five minutes: the source means them to grow faster with each try, and never counts the tries.
linear_waits :
    (delay i : ℕ) (attempts : List Attempt) (c : Client)
    → All IsFailing attempts
    → delay + 4 * length attempts ≤ 304
    → i < length attempts
    → get_elem? (reconnect_loop 0 delay attempts c).waits i ≡ some (delay + 4 * i)
unfolding reconnect_loop next_delay
linear_waits delay i [] c fail small h = absurd (omega arith)
linear_waits delay zero (a ∷ rest) c fail small h = ground (arith, failing_connect a c fail.0)
linear_waits delay (suc i) (a ∷ rest) c fail small h = ground (
  arith,
  failing_connect a c fail.0,
  linear_waits (next_delay 0 delay) i rest (internal_connect a c).0 fail.1,
)

recovers :
    (try delay : ℕ) (fails : List Attempt) (a : Attempt) (rest : List Attempt) (c : Client)
    → All IsFailing fails
    → IsGood a
    → c.is_connected ≡ false
    → str_eq c.endpoint "" ≡ false
    → let r = reconnect_loop try delay (fails ++ a ∷ rest) c in
      (r.outcome ≡ connected)
      × (r.error ≡ none)
      × (r.client.is_connected ≡ true)
      × (length r.waits ≡ length fails)
unfolding reconnect_loop
recovers try delay [] a rest c fail good down named =
    ground (arith, good_connect a c good down named)
recovers try delay (b ∷ fails) a rest c fail good down named =
    let k = failing_keeps b c fail.0 down in
    ground (
      arith,
      failing_connect b c fail.0,
      recovers try (next_delay try delay) fails a rest (internal_connect b c).0 fail.1 good
          k.still_down,
    )

-- The client as a reconnect leaves it for its loop.
abbrev closed : Socket → Client → Client
closed s c = (disconnect s (record c { is_reconnecting = true })).0

closed_lem :
    (s : Socket) (c : Client)
    → ((closed s c).is_connected ≡ false) × ((closed s c).endpoint ≡ c.endpoint)
unfolding disconnect
closed_lem s c = ground arith

reconnect_lem :
    (s : Socket) (attempts : List Attempt) (c : Client)
    → c.is_reconnecting ≡ false
    → c.requested_disconnect ≡ false
    → let r = reconnect_loop 0 3 attempts (closed s c) in
      reconnect s attempts c ≡ record r { client = record (r.client) { is_reconnecting = false } }
unfolding reconnect disconnect
reconnect_lem s attempts c idle stays = ground arith

-- A reconnect that starts while none is under way, on a client that was not asked to disconnect and
-- that has an endpoint, gets through however many attempts fail to open the socket before one opens it
-- and sends its identify or resume, if the connect queue skips none of them and no shutdown comes: it
-- ends connected and free for the next reconnect, after one wait for each failure, and each wait lies
-- between three seconds and five minutes.
pub reconnect_recovers :
    (s : Socket) (fails : List Attempt) (a : Attempt) (rest : List Attempt) (c : Client)
    → All IsFailing fails
    → IsGood a
    → c.is_reconnecting ≡ false
    → c.requested_disconnect ≡ false
    → str_eq c.endpoint "" ≡ false
    → let r = reconnect s (fails ++ a ∷ rest) c in
      (r.error ≡ none)
      × (r.outcome ≡ connected)
      × (r.client.is_connected ≡ true)
      × (r.client.is_reconnecting ≡ false)
      × (length r.waits ≡ length fails)
      × All (λ w. (3 ≤ w) × (w ≤ 300)) r.waits
reconnect_recovers s fails a rest c fail good idle stays named =
    let c' = closed s c in
    let (down, same) = closed_lem s c in
    let r = reconnect_loop 0 3 (fails ++ a ∷ rest) c' in
    let (up, fine, on, waits) =
      recovers 0 3 fails a rest c' fail good down (ap (λ e. str_eq e "") same ∙ named) in
    rw (reconnect_lem s (fails ++ a ∷ rest) c idle stays) (
      fine,
      up,
      on,
      refl,
      waits,
      waits_bounded 0 3 (fails ++ a ∷ rest) c' (omega arith) (omega arith),
    )
