-- ===== src/Gateway/Client/Receive.antt =====
-- internal/gateway/client.go (receiver) and voiceclient.go (the close codes of a voice client): the
-- goroutine that reads packets from the socket. A round is one run of its loop; what the socket
-- answers and what happens beside the goroutine come with the round. A panic is `none`.
pub mod Errors
pub mod Packets
pub mod Endings
use disgord.Base.{
  ℕ, suc, ◌+◌, List, [], ◌∷◌, ◌++◌, Option, none, some, Bool, true, false, not, leb, ltb, ◌==◌,
  ◌&&◌, ◌||◌, if◌then◌else◌, ◌>>=◌,
}
use disgord.Gateway.Command.{ClientType, client_type_event, client_type_voice}
use disgord.Gateway.Client.{Client}
use disgord.Gateway.Client.Link.{Socket, request_disconnect}

-- How the goroutine ends.
pub data ReceiverEnd : Type 0 where
  closed_down reconnects : ReceiverEnd

-- `ctx_done` says that the context of this connection is cancelled, `cancelled` that `internal` is.
pub record Receiver (P : Type 0) : Type 0 where
  pub client : Client
  pub have_identified_once : Bool  -- of the voice client
  pub ctx_done : Bool
  pub cancelled : Bool
  pub noop_counter : ℕ
  pub receive_chan_closed : Bool
  pub received : List P
  pub reported : List ℕ
  pub ended : Option ReceiverEnd

-- What `conn.Read` gives: an error, with the code if it is a `CloseErr`, or the text of a packet.
pub data Read (D : Type 0) : Type 0 where
  failed : Option ℕ → Read D
  packet : D → Read D

-- One round. `shut_down`: another goroutine has cancelled the context by then; `picks_internal`:
-- which case the select takes when both are ready; `socket` is the socket when it is disconnected.
pub record Round (D : Type 0) : Type 0 where
  pub shut_down : Bool
  pub picks_internal : Bool
  pub socket : Socket
  pub read : Read D

abbrev pub new_receiver : {P : Type 0} → Client → Receiver P
new_receiver c = record {
  client = c;
  have_identified_once = true;
  ctx_done = false;
  cancelled = false;
  noop_counter = 0;
  receive_chan_closed = false;
  received = [];
  reported = [];
  ended = none;
}

module _ {P : Type 0} where
  -- `_ = c.Disconnect()`, which cancels the context of the connection
  unfoldable pub drop_connection : Socket → Receiver P → Receiver P
  drop_connection s r = record r {
    client = (request_disconnect s r.client).0;
    ctx_done = r.ctx_done || r.client.has_cancel;
  }

  -- `close(c.receiveChan)`
  unfoldable pub close_channel : Receiver P → Option (Receiver P)
  close_channel r =
      if r.receive_chan_closed then none else some (record r { receive_chan_closed = true })

  -- Disconnect, notify the client, and do not reconnect.
  unfoldable pub give_up : Socket → Receiver P → Option (Receiver P × Bool)
  give_up s r = do r' ← close_channel (drop_connection s r); some (r', false)

  -- the close codes, with whether to reconnect
  unfoldable pub close_event : Socket → ℕ → Receiver P → Option (Receiver P × Bool)
  close_event s code r =
      if code == 4008
      then some (drop_connection s r, true)
      else if code == 4010 || code == 4013 || code == 4014
      then give_up s r
      else some (r, true)

  unfoldable pub forget_identify : ℕ → Receiver P → Receiver P
  forget_identify code r = record r {
    have_identified_once = r.have_identified_once && not (code == 4006 || code == 4009);
  }

  unfoldable pub close_voice : Socket → ℕ → Receiver P → Option (Receiver P × Bool)
  close_voice s code r =
      if code == 4006
      then some (drop_connection s r, true)
      else if code == 4014
      then give_up s r
      else some (r, true)

  -- the call of `discordErrListener`
  unfoldable pub report : Bool → ℕ → Receiver P → Receiver P
  report listens code r =
      if listens && leb 4000 code && ltb code 5000
      then record r { reported = r.reported ++ (code ∷ []) }
      else r

  unfoldable pub by_type : ClientType → Socket → ℕ → Receiver P → Option (Receiver P × Bool)
  by_type client_type_event s code r = close_event s code r
  by_type client_type_voice s code r = close_voice s code (forget_identify code r)

  unfoldable pub on_error : Bool → Socket → Option ℕ → Receiver P → Option (Receiver P × Bool)
  on_error listens s none r = some (r, true)
  on_error listens s (some code) r = by_type r.client.client_type s code (report listens code r)

  -- `select`: with the context cancelled, no reconnect is started
  unfoldable pub after_error : Receiver P × Bool → Receiver P
  after_error (r, reconnect) =
      if r.ctx_done then r else if reconnect then record r { cancelled = true } else r

  -- A packet that is no JSON is skipped; after ten of them, the next one forces a reconnect.
  unfoldable pub skip_packet : Receiver P → Receiver P
  skip_packet r = record r {
    noop_counter = r.noop_counter + 1;
    cancelled = r.cancelled || leb 10 r.noop_counter;
  }

  -- `c.receiveChan <- evt`
  unfoldable pub pass_on : P → Receiver P → Option (Receiver P)
  pass_on p r =
      if r.receive_chan_closed
      then none
      else some (record r { noop_counter = 0; received = r.received ++ (p ∷ []) })

  -- the first select: `none` when the loop goes on
  unfoldable pub goroutine_end : Bool → Receiver P → Option ReceiverEnd
  goroutine_end picks_internal r =
      if r.ctx_done && not (r.cancelled && picks_internal)
      then some closed_down
      else if r.cancelled
      then some reconnects
      else none

module _ {D P : Type 0} (decode : D → Option P) (listens : Bool) where
  unfoldable pub on_read : Socket → Read D → Receiver P → Option (Receiver P)
  on_read s (failed code) r = do step ← on_error listens s code r; some (after_error step)
  on_read s (packet raw) r = elim (decode raw) [
    | none ↦ some (skip_packet r)
    | some p ↦ pass_on p r
  ]

  -- one run of the loop, of a goroutine that has not ended
  unfoldable pub round : Round D → Receiver P → Option (Receiver P)
  round i r =
      let r' : Receiver P = record r { ctx_done = r.ctx_done || i.shut_down } in
      elim (goroutine_end i.picks_internal r') [
        | some e ↦ some (record r' { ended = some e })
        | none ↦ on_read i.socket i.read r'
      ]

  -- the loop, over the rounds that are given; a goroutine that has ended runs no more
  unfoldable pub receive_loop : List (Round D) → Receiver P → Option (Receiver P)
  receive_loop [] r = some r
  receive_loop (i ∷ is) r = elim r.ended [
    | some e ↦ some r
    | none ↦ do r' ← round i r; receive_loop is r'
  ]
