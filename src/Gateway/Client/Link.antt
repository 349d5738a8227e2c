-- ===== src/Gateway/Client/Link.antt =====
-- internal/gateway/client.go and eventclient.go: connecting, disconnecting and reconnecting. What the
-- socket, the connect queue and the clock do is an argument; durations are in seconds.
pub mod Backoff
pub mod Stuck
use disgord.Base.{
  ℕ, suc, ◌+◌, ◌*◌, List, [], ◌∷◌, ◌++◌, Option, none, some, Bool, true, false, String, str_eq, not,
  ltb, is_some, ◌&&◌, ◌||◌, if◌then◌else◌,
}
use disgord.Gateway.Command.{event_identify, event_resume}
use disgord.Gateway.Client.{Client, once_add, once_acquire}

pub data LinkError : Type 0 where
  already_connected missing_endpoint queue_failed dial_failed identify_timeout : LinkError
  already_disconnected close_failed cannot_reconnect : LinkError

-- The socket when `disconnect` runs: whether it is closed already, and whether closing it fails.
pub record Socket : Type 0 where
  pub disconnected : Bool
  pub close_fails : Bool

unfoldable pub disconnect : Socket → Client → Client × Option LinkError
disconnect s c =
    let already = s.disconnected || not c.have_connected_once || not c.has_cancel in
    let c' = record c { has_cancel = false; is_connected = false } in
    if already
    then (c', some already_disconnected)
    else (c', if s.close_fails then some close_failed else none)

-- `Disconnect`, the one that the user calls.
unfoldable pub request_disconnect : Socket → Client → Client × Option LinkError
request_disconnect s c = disconnect s (record c { requested_disconnect = true })

-- What ends the wait for the identify or resume to be sent.
pub data Wait : Type 0 where
  session_closed sent timed_out : Wait

-- What the connect queue does: it runs the callback, or returns an error or nil without running it
-- (`queueShard` returns nil on a shutdown).
pub data Queueing : Type 0 where
  runs refuses skips : Queueing

-- One attempt to connect: what the connect queue does, whether the socket opens, and how the wait
-- ends. `shutdown` is a shutdown of the system while the loop sleeps after a failure.
pub record Attempt : Type 0 where
  pub queueing : Queueing
  pub opens : Bool
  pub wait : Wait
  pub shutdown : Bool

-- The deferred cleanup of the once channels.
clean_once : Client → Client
clean_once c = record c {
  once_channels = (once_acquire event_resume (once_acquire event_identify c.once_channels).0).0;
}

-- The error and whether a reconnect is started beside, by how the wait ends.
after_wait : Wait → Option LinkError × Bool
after_wait session_closed = (none, false)
after_wait sent = (none, false)
after_wait timed_out = (some identify_timeout, true)

-- The callback that the connect queue runs: the client, the error, and whether a reconnect is
-- started beside.
in_queue : Attempt → Client → Client × Option LinkError × Bool
unfolding clean_once after_wait
in_queue a c =
    let c1 = record c {
      once_channels = once_add event_resume (once_add event_identify c.once_channels);
    } in
    if a.opens
    then (
      clean_once (record c1 { have_connected_once = true; is_connected = true }),
      (after_wait a.wait).0,
      (after_wait a.wait).1,
    )
    else (clean_once c1, some dial_failed, false)

by_queue : Queueing → Attempt → Client → Client × Option LinkError × Bool
unfolding in_queue
by_queue runs a c = in_queue a c
by_queue refuses a c = (c, some queue_failed, false)
by_queue skips a c = (c, none, false)

unfoldable pub internal_connect : Attempt → Client → Client × Option LinkError × Bool
unfolding by_queue
internal_connect a c =
    if c.is_connected
    then (c, some already_connected, false)
    else if str_eq c.endpoint ""
    then (c, some missing_endpoint, false)
    else by_queue a.queueing a (record c { has_cancel = true })

-- The delay before the next attempt. The source adds `4 + try*2`, and never counts `try` up.
unfoldable pub next_delay : ℕ → ℕ → ℕ
next_delay try delay =
    let longer = delay + (4 + try * 2) in if ltb (5 * 60) longer then 60 else longer

-- How the loop stands when the attempts that are given are used up, or when it ends.
pub data LoopEnd : Type 0 where
  connected shut_down still_trying not_started : LoopEnd

pub record LoopResult : Type 0 where
  pub client : Client
  pub waits : List ℕ
  pub outcome : LoopEnd
  pub error : Option LinkError

-- `reconnectLoop` from the given `try` and delay; one attempt to a round.
unfoldable pub reconnect_loop : ℕ → ℕ → List Attempt → Client → LoopResult
reconnect_loop try delay [] c = record {
  client = c;
  waits = [];
  outcome = still_trying;
  error = none;
}
reconnect_loop try delay (a ∷ rest) c =
    let (c', error, spawned) = internal_connect a c in
    let later = reconnect_loop try (next_delay try delay) rest c' in
    if not (is_some error)
    then record { client = c'; waits = []; outcome = connected; error = none }
    else if a.shutdown
    then record { client = c'; waits = delay ∷ []; outcome = shut_down; error = error }
    else record later { waits = delay ∷ later.waits }

-- `reconnect`: nothing if one is under way; an error if the user has asked to disconnect and
-- disconnecting fails.
unfoldable pub reconnect : Socket → List Attempt → Client → LoopResult
reconnect s attempts c =
    let (c', error) = disconnect s (record c { is_reconnecting = true }) in
    let r = reconnect_loop 0 3 attempts c' in
    if c.is_reconnecting
    then record { client = c; waits = []; outcome = not_started; error = none }
    else if is_some error && c'.requested_disconnect
    then record {
      client = record c' { is_reconnecting = false };
      waits = [];
      outcome = not_started;
      error = some cannot_reconnect;
    }
    else record r { client = record (r.client) { is_reconnecting = false } }
