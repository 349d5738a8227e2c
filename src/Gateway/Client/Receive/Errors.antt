-- ===== src/Gateway/Client/Receive/Errors.antt =====
-- internal/gateway/client.go (receiver): what an error that is read leaves.
use disgord.Base.{
  ℕ, ◌≡◌, refl, ◌∙◌, Option, none, some, Bool, true, false, not, ◌==◌, ◌||◌, if◌then◌else◌, ◌>>=◌,
  arith,
}
use disgord.Gateway.Command.{ClientType, client_type_event, client_type_voice}
use disgord.Gateway.Client.Link.{Socket, request_disconnect, disconnect}
use disgord.Gateway.Client.Receive.{
  Receiver, drop_connection, close_channel, give_up, close_event, close_voice, forget_identify,
  report, by_type, on_error, after_error,
}

-- The connection can still be cancelled or is, and the channel is closed only if it is.
pub record IsLinked {P : Type 0} (r : Receiver P) : Type 0 where
  pub held : r.ctx_done || r.client.has_cancel ≡ true
  pub open_chan : r.receive_chan_closed ≡ true → r.ctx_done ≡ true

-- The close codes on which the receiver disconnects, and those on which it notifies the client.
abbrev pub drops : ClientType → Option ℕ → Bool
drops t none = false
drops client_type_event (some code) = code == 4008 || code == 4010 || code == 4013 || code == 4014
drops client_type_voice (some code) = code == 4006 || code == 4014

abbrev pub notifies : ClientType → Option ℕ → Bool
notifies t none = false
notifies client_type_event (some code) = code == 4010 || code == 4013 || code == 4014
notifies client_type_voice (some code) = code == 4014

module _ {P : Type 0} where
  -- A receiver that reads: neither its context nor `internal` is cancelled.
  pub record Reads (r : Receiver P) : Type 0 where
    pub held : r.client.has_cancel ≡ true
    pub running : r.ctx_done ≡ false
    pub going : r.cancelled ≡ false
    pub open_chan : r.receive_chan_closed ≡ false

  -- What an error leaves of a receiver that reads.
  pub record IsAfter (t : ClientType) (code : Option ℕ) (r r' : Receiver P) : Type 0 where
    pub ctx_done : r'.ctx_done ≡ drops t code
    pub cancelled : r'.cancelled ≡ not (drops t code)
    pub closed : r'.receive_chan_closed ≡ notifies t code
    pub held : r'.client.has_cancel ≡ not (drops t code)
    pub received : r'.received ≡ r.received
    pub running : r'.ended ≡ r.ended

  dropped : Socket → Receiver P → Receiver P × Bool
  dropped s r = (record (drop_connection s r) { receive_chan_closed = true }, false)

  -- what the close codes do while the channel is open
  expected : ClientType → Socket → ℕ → Receiver P → Receiver P × Bool
  expected client_type_event s code r =
      if code == 4008
      then (drop_connection s r, true)
      else if code == 4010 || code == 4013 || code == 4014
      then dropped s r
      else (r, true)
  expected client_type_voice s code r =
      if code == 4006
      then (drop_connection s (forget_identify code r), true)
      else if code == 4014
      then dropped s (forget_identify code r)
      else (forget_identify code r, true)

  give_up_lem :
      (s : Socket) (r : Receiver P)
      → r.receive_chan_closed ≡ false
      → give_up s r ≡ some (dropped s r)
  unfolding give_up close_channel drop_connection dropped
  give_up_lem s r h = ground arith

  by_type_lem :
      (t : ClientType) (s : Socket) (code : ℕ) (r : Receiver P)
      → r.receive_chan_closed ≡ false
      → by_type t s code r ≡ some (expected t s code r)
  unfolding by_type close_event close_voice expected forget_identify
  by_type_lem client_type_event s code r h = ground (arith, give_up_lem s r h)
  by_type_lem client_type_voice s code r h =
      ground (arith, give_up_lem s (forget_identify code r) h)

  expected-IsAfter :
      (t : ClientType) (s : Socket) (code : ℕ) (r : Receiver P)
      → Reads r
      → IsAfter t (some code) r (after_error (expected t s code r))
  unfolding expected dropped drop_connection request_disconnect disconnect after_error
      forget_identify
  expected-IsAfter client_type_event s code r h = record {
    ctx_done = ground arith;
    cancelled = ground arith;
    closed = ground arith;
    held = ground arith;
    received = ground arith;
    running = ground arith;
  }
  expected-IsAfter client_type_voice s code r h = record {
    ctx_done = ground arith;
    cancelled = ground arith;
    closed = ground arith;
    held = ground arith;
    received = ground arith;
    running = ground arith;
  }

  Reads-report :
      (listens : Bool) (code : ℕ) (r : Receiver P) → Reads r → Reads (report listens code r)
  unfolding report
  Reads-report listens code r h = record {
    held = ground arith;
    running = ground arith;
    going = ground arith;
    open_chan = ground arith;
  }

  report-received :
      (listens : Bool) (code : ℕ) (r : Receiver P) → (report listens code r).received ≡ r.received
  unfolding report
  report-received listens code r = ground arith

  report-ended :
      (listens : Bool) (code : ℕ) (r : Receiver P) → (report listens code r).ended ≡ r.ended
  unfolding report
  report-ended listens code r = ground arith

  -- an error that is read: what the loop goes on with
  abbrev failing : Bool → Socket → Option ℕ → Receiver P → Option (Receiver P)
  failing listens s code r = do step ← on_error listens s code r; some (after_error step)

  pub on_error-IsAfter :
      (listens : Bool) (s : Socket) (code : Option ℕ) (r : Receiver P)
      → Reads r
      → (r' : Receiver P) × (failing listens s code r ≡ some r')
        × IsAfter r.client.client_type code r r'
  unfolding on_error after_error
  on_error-IsAfter listens s none r h = (
    record r { cancelled = true },
    ground arith,
    record {
      ctx_done = h.running;
      cancelled = refl;
      closed = h.open_chan;
      held = h.held;
      received = refl;
      running = refl;
    },
  )
  on_error-IsAfter listens s (some code) r h =
      let told : Receiver P = report listens code r in
      let t : ClientType = r.client.client_type in
      let k = expected-IsAfter t s code told (Reads-report listens code r h) in
      (
        after_error (expected t s code told),
        ground (arith, by_type_lem t s code told (Reads-report listens code r h).open_chan),
        record {
          ctx_done = k.ctx_done;
          cancelled = k.cancelled;
          closed = k.closed;
          held = k.held;
          received = k.received ∙ report-received listens code r;
          running = k.running ∙ report-ended listens code r;
        },
      )
