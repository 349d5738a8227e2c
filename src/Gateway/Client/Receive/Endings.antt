-- ===== src/Gateway/Client/Receive/Endings.antt =====
-- internal/gateway/client.go (receiver): how it ends.
use disgord.Base.{
  ℕ, ◌+◌, ◌≤◌, ◌≡◌, refl, ◌∙◌, inl, inr, List, [], ◌∷◌, ◌++◌, Option, none, some, Bool, true, false,
  not, ◌||◌, if◌then◌else◌, arith, length, Bool-cases, Option-cases,
}
use disgord.Gateway.Command.{ClientType}
use disgord.Gateway.Client.Receive.{
  Receiver, ReceiverEnd, Round, failed, packet, closed_down, reconnects, skip_packet, goroutine_end,
  on_read, round, receive_loop,
}
use disgord.Gateway.Client.Receive.Packets.{receive_loop_over}
use disgord.Gateway.Client.Receive.Errors.{Reads, IsAfter, drops, notifies, on_error-IsAfter}

module _ {D P : Type 0} (decode : D → Option P) (listens : Bool) where
  two_rounds :
      (i j : Round D) (is : List (Round D)) (r a b : Receiver P) (e : ReceiverEnd)
      → r.ended ≡ none
      → round decode listens i r ≡ some a
      → a.ended ≡ none
      → round decode listens j a ≡ some b
      → b.ended ≡ some e
      → receive_loop decode listens (i ∷ j ∷ is) r ≡ some b
  unfolding receive_loop
  two_rounds i j is r a b e on first still second over =
      ground (arith, on, first, still, second, receive_loop_over decode listens is b e over)

  -- the receiver at the reading of a round
  abbrev at_read : Round D → Receiver P → Receiver P
  at_read i r = record r { ctx_done = r.ctx_done || i.shut_down }

  at_read-Reads :
      (i : Round D) (r : Receiver P) → Reads r → i.shut_down ≡ false → Reads (at_read i r)
  at_read-Reads i r h calm = record {
    held = h.held;
    running = ground arith;
    going = h.going;
    open_chan = h.open_chan;
  }

  round-at_read :
      (i : Round D) (r : Receiver P)
      → Reads r
      → i.shut_down ≡ false
      → round decode listens i r ≡ on_read decode listens i.socket i.read (at_read i r)
  unfolding round goroutine_end
  round-at_read i r h calm = ground (arith, h.running, h.going)

  round_ends :
      (t : ClientType) (code : Option ℕ) (j : Round D) (r r' : Receiver P)
      → IsAfter t code r r'
      → j.shut_down ≡ false
      → round decode listens j r'
        ≡ some (record r' {
          ctx_done = r'.ctx_done || j.shut_down;
          ended = some (if drops t code then closed_down else reconnects);
        })
  unfolding round goroutine_end
  round_ends t code j r r' h calm = elim (Bool-cases (drops t code)) [
    | inl stops ↦ ground (arith, h.ctx_done, h.cancelled, stops)
    | inr goes ↦ ground (arith, h.ctx_done, h.cancelled, goes)
  ]

  -- After an error, whatever it is, a receiver that reads does not panic and ends in the next round.
  -- Unless another goroutine cancels the context, it ends with a reconnect, but on the codes 4008, 4010,
  -- 4013 and 4014 of an event client, and 4006 and 4014 of a voice client: it has disconnected then,
  -- and ends without one. The client is notified on 4010, 4013 and 4014 of these, and on 4014.
  pub error_ends :
      (i j : Round D) (is : List (Round D)) (code : Option ℕ) (r : Receiver P)
      → Reads r
      → r.ended ≡ none
      → i.read ≡ failed code
      → i.shut_down ≡ false
      → j.shut_down ≡ false
      → let t = r.client.client_type in
        (r' : Receiver P) × (receive_loop decode listens (i ∷ j ∷ is) r ≡ some r')
        × (r'.ended ≡ some (if drops t code then closed_down else reconnects))
        × (r'.receive_chan_closed ≡ notifies t code)
        × (r'.client.has_cancel ≡ not (drops t code))
        × (r'.received ≡ r.received)
  unfolding receive_loop on_read
  error_ends i j is code r h on e ci cj =
      let t : ClientType = r.client.client_type in
      let k = on_error-IsAfter listens i.socket code (at_read i r) (at_read-Reads i r h ci) in
      let last : ReceiverEnd = if drops t code then closed_down else reconnects in
      let r' : Receiver P = record k.0 {
        ctx_done = k.0.ctx_done || j.shut_down;
        ended = some last;
      } in
      let reads : round decode listens i r ≡ some k.0 =
        round-at_read i r h ci ∙ ground (arith, e, k.1) in
      (
        r',
        two_rounds i j is r k.0 r' last on reads (k.2.running ∙ on)
            (round_ends t code j (at_read i r) k.0 k.2 cj) refl,
        refl,
        k.2.closed,
        k.2.held,
        k.2.received,
      )

  -- The round reads a packet that is no JSON, and nobody cancels the context.
  abbrev pub IsBad : Round D → Type 0
  IsBad i = (raw : D) × (i.read ≡ packet raw) × (decode raw ≡ none) × (i.shut_down ≡ false)

  abbrev pub AllBad : List (Round D) → Type 0
  AllBad [] = Unit {0}
  AllBad (i ∷ is) = IsBad i × AllBad is

  bad_round :
      (i : Round D) (r : Receiver P)
      → Reads r
      → IsBad i
      → round decode listens i r ≡ some (skip_packet (at_read i r))
  unfolding on_read
  bad_round i r h (raw, e, bad, calm) = ground (arith, round-at_read i r h calm, e, bad)

  few_bad :
      (is : List (Round D)) (r : Receiver P)
      → Reads r
      → r.ended ≡ none
      → r.noop_counter + length is ≤ 10
      → AllBad is
      → (r' : Receiver P) × (receive_loop decode listens is r ≡ some r')
        × Reads r'
        × (r'.ended ≡ none)
        × (r'.received ≡ r.received)
        × (r'.noop_counter ≡ r.noop_counter + length is)
  unfolding receive_loop skip_packet
  few_bad [] r h on few bad = (r, refl, h, on, refl, omega arith)
  few_bad (i ∷ is) r h on few bad =
      let next : Receiver P = skip_packet (at_read i r) in
      let reads : Reads next = record {
        held = h.held;
        running = ground (arith, h.running, bad.0.3);
        going = ground (arith, h.going, few);
        open_chan = h.open_chan;
      } in
      let k = few_bad is next reads on (omega (arith, few)) bad.1 in
      (k.0, ground (arith, on, bad_round i r h bad.0, k.1), k.2, k.3, k.4, omega (arith, k.5))

  receive_loop-append :
      (is js : List (Round D)) (r r' : Receiver P)
      → receive_loop decode listens is r ≡ some r'
      → receive_loop decode listens (is ++ js) r ≡ receive_loop decode listens js r'
  unfolding receive_loop
  receive_loop-append [] js r r' e = ground arith
  receive_loop-append (i ∷ is) js r r' e = elim (Option-cases r.ended) [
    | inr (x, over) ↦ ground (arith, over, e, receive_loop_over decode listens js r x over)
    | inl on ↦ elim (Option-cases (round decode listens i r)) [
      | inl panics ↦ ground (arith, on, panics, e)
      | inr (m, goes) ↦ ground (arith, on, goes, e, receive_loop-append is js m r')
    ]
  ]

  forced_ends :
      (j : Round D) (r : Receiver P)
      → j.shut_down ≡ false
      → r.ctx_done ≡ false
      → r.cancelled ≡ true
      → round decode listens j r ≡ some (record (at_read j r) { ended = some reconnects })
  unfolding round goroutine_end
  forced_ends j r calm running forced = ground arith

  -- After ten packets in a row that are no JSON, a receiver that reads still does; after one more it
  -- ends in the next round with a reconnect, unless the context is cancelled by then, and has received
  -- nothing of them all.
  pub bad_packets :
      (is : List (Round D)) (i j : Round D) (js : List (Round D)) (r : Receiver P)
      → Reads r
      → r.ended ≡ none
      → r.noop_counter ≡ 0
      → length is ≡ 10
      → AllBad is
      → IsBad i
      → j.shut_down ≡ false
      → (before r' : Receiver P) × (receive_loop decode listens is r ≡ some before)
        × Reads before
        × (before.ended ≡ none)
        × (receive_loop decode listens (is ++ i ∷ j ∷ js) r ≡ some r')
        × (r'.ended ≡ some reconnects)
        × (r'.received ≡ r.received)
  unfolding receive_loop skip_packet
  bad_packets is i j js r h on c ten bad last calm =
      let k = few_bad is r h on (omega (arith, c, ten)) bad in
      let forced : Receiver P = skip_packet (at_read i k.0) in
      let reads : Receiver P = at_read j forced in
      (
        k.0,
        record reads { ended = some reconnects },
        k.1,
        k.2,
        k.3,
        receive_loop-append is (i ∷ j ∷ js) r k.0 k.1
            ∙ two_rounds i j js k.0 forced (record reads { ended = some reconnects }) reconnects k.3
                (bad_round i k.0 k.2 last) k.3
                (forced_ends j forced calm (ground (arith, k.2.running, last.3))
                  (ground (arith, k.5, c, ten)))
                refl,
        refl,
        k.4,
      )
