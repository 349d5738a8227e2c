-- ===== src/Gateway/Client/Link/Stuck.antt =====
-- Two ways in which a client never gets back to Discord.
use disgord.Base.{
  ℕ, ◌≡◌, refl, ◌∙◌, List, [], ◌∷◌, none, some, true, false, str_eq, arith, is_some, All,
}
use disgord.Gateway.Client.{Client}
use disgord.Gateway.Client.Link.{
  Attempt, runs, timed_out, sent, Socket, cannot_reconnect, still_trying, not_started, next_delay,
  internal_connect, reconnect_loop, reconnect, disconnect, request_disconnect,
}

abbrev pub IsUninterrupted : List Attempt → Type 0
IsUninterrupted attempts = All (λ a. a.shutdown ≡ false) attempts

-- A loop whose client counts as connected fails at every attempt.
loop_connected :
    (try delay : ℕ) (attempts : List Attempt) (c : Client)
    → IsUninterrupted attempts
    → c.is_connected ≡ true
    → (reconnect_loop try delay attempts c).outcome ≡ still_trying
unfolding reconnect_loop internal_connect
loop_connected try delay [] c calm up = refl
loop_connected try delay (a ∷ rest) c calm up =
    ground (arith, loop_connected try (next_delay try delay) rest c calm.1)

timed_out_connect :
    (a : Attempt) (c : Client)
    → a.queueing ≡ runs
    → a.opens ≡ true
    → a.wait ≡ timed_out
    → c.is_connected ≡ false
    → str_eq c.endpoint "" ≡ false
    → (is_some (internal_connect a c).1 ≡ true)
      × ((internal_connect a c).0.is_connected ≡ true)
      × ((internal_connect a c).0.is_reconnecting ≡ c.is_reconnecting)
unfolding internal_connect
timed_out_connect a c q o w down named = ground arith

-- When the identify is not sent within three minutes of a connection that a reconnect has opened,
-- the loop of that reconnect never ends, whatever the later attempts are, as long as no shutdown comes
-- while one waits and nothing else disconnects the client meanwhile: the client counts as connected, so
-- each of them is refused. And the reconnect that the timeout starts does nothing, as one is under way.
pub timeout_stuck :
    (s : Socket) (try delay : ℕ) (a : Attempt) (rest others : List Attempt) (c : Client)
    → a.queueing ≡ runs
    → a.opens ≡ true
    → a.wait ≡ timed_out
    → IsUninterrupted (a ∷ rest)
    → c.is_connected ≡ false
    → c.is_reconnecting ≡ true
    → str_eq c.endpoint "" ≡ false
    → let c' = (internal_connect a c).0 in
      ((reconnect_loop try delay (a ∷ rest) c).outcome ≡ still_trying)
      × (reconnect s others c'
          ≡ record { client = c'; waits = []; outcome = not_started; error = none })
unfolding reconnect_loop reconnect
timeout_stuck s try delay a rest others c q o w calm down busy named =
    let (failed, up, still) = timed_out_connect a c q o w down named in
    (
      ground
          (arith, loop_connected try (next_delay try delay) rest (internal_connect a c).0 calm.1),
      rw (still ∙ busy),
    )

-- After the user has disconnected and connected again, a reconnect gives up at once when closing
-- the broken socket fails: the old request to disconnect is never forgotten.
reconnect_gives_up :
    (s broken : Socket) (a : Attempt) (attempts : List Attempt) (c : Client)
    → a.queueing ≡ runs
    → a.opens ≡ true
    → a.wait ≡ sent
    → c.is_reconnecting ≡ false
    → str_eq c.endpoint "" ≡ false
    → broken.close_fails ≡ true
    → let again = (internal_connect a (request_disconnect s c).0).0 in
      let r = reconnect broken attempts again in
      (again.is_connected ≡ true)
      × (r.error ≡ some cannot_reconnect)
      × (r.client.is_connected ≡ false)
      × (r.waits ≡ [])
unfolding internal_connect request_disconnect disconnect reconnect
reconnect_gives_up s broken a attempts c q o w idle named fails = ground arith
