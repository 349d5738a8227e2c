-- ===== src/Gateway/Client/Receive/Packets.antt =====
-- internal/gateway/client.go (receiver): what becomes of the packets, whatever is read.
use disgord.Base.{
  ℕ, suc, ◌≡◌, refl, sym, ap, ◌∙◌, ◌≢◌, ◌⊎◌, inl, inr, List, [], ◌∷◌, ◌++◌, Option, none, some,
  Bool, ◌||◌, arith, take, length, Bool-cases, Option-cases,
}
use mathlib.Core.List.{append-nil, append_assoc}
use disgord.Gateway.Command.{ClientType, client_type_event, client_type_voice}
use disgord.Gateway.Client.Link.{Socket}
use disgord.Gateway.Client.Receive.{
  Receiver, ReceiverEnd, Read, Round, failed, packet, skip_packet, pass_on, goroutine_end, on_read,
  round, receive_loop,
}
use disgord.Gateway.Client.Receive.Errors.{IsLinked, Reads, IsAfter, on_error-IsAfter}

module _ {D P : Type 0} (decode : D → Option P) (listens : Bool) where
  -- what a round reads for the client
  unfoldable pub parsed : Read D → List P
  parsed (failed code) = []
  parsed (packet raw) = elim (decode raw) [ none ↦ [] | some p ↦ p ∷ [] ]

  -- The packets that some rounds read, in their order.
  unfoldable pub all_parsed : List (Round D) → List P
  all_parsed [] = []
  all_parsed (i ∷ is) = parsed i.read ++ all_parsed is

  -- What is read leaves a receiver that is linked, with the packet, if it is one, behind the others.
  Takes : Read D → Receiver P → Option (Receiver P) → Type 0
  Takes read r o =
      (r' : Receiver P) × (o ≡ some r')
      × IsLinked r'
      × (r'.received ≡ r.received ++ parsed read)
      × (r'.ended ≡ r.ended)

  IsAfter-IsLinked :
      (t : ClientType) (code : Option ℕ) (r r' : Receiver P) → IsAfter t code r r' → IsLinked r'
  IsAfter-IsLinked t none r r' h = record { held = ground arith; open_chan = λ e. ground arith }
  IsAfter-IsLinked client_type_event (some code) r r' h = record {
    held = ground arith;
    open_chan = λ e. ground arith;
  }
  IsAfter-IsLinked client_type_voice (some code) r r' h = record {
    held = ground arith;
    open_chan = λ e. ground arith;
  }

  on_read-Takes :
      (s : Socket) (read : Read D) (r : Receiver P)
      → Reads r
      → Takes read r (on_read decode listens s read r)
  unfolding on_read parsed pass_on skip_packet Takes
  on_read-Takes s (failed code) r h =
      let k = on_error-IsAfter listens s code r h in
      (
        k.0,
        k.1,
        IsAfter-IsLinked r.client.client_type code r k.0 k.2,
        k.2.received ∙ sym (append-nil r.received),
        k.2.running,
      )
  on_read-Takes s (packet raw) r h = elim (Option-cases (decode raw)) [
    | inl bad ↦ (
      skip_packet r,
      ground (arith, bad),
      record { held = ground arith; open_chan = λ e. ground arith },
      ground (arith, bad, append-nil r.received),
      refl,
    )
    | inr (p, e) ↦ (
      record r { noop_counter = 0; received = r.received ++ (p ∷ []) },
      ground (arith, e),
      record { held = ground arith; open_chan = λ e. ground arith },
      ground (arith, e),
      refl,
    )
  ]

  -- The round does not panic; it receives what is read, or ends.
  Goes : Round D → Receiver P → Option (Receiver P) → Type 0
  Goes i r o =
      (r' : Receiver P) × (o ≡ some r')
      × IsLinked r'
      × (((r'.received ≡ r.received ++ parsed i.read) × (r'.ended ≡ r.ended))
          ⊎ ((e : ReceiverEnd) × (r'.ended ≡ some e) × (r'.received ≡ r.received)))

  round-Goes : (i : Round D) (r : Receiver P) → IsLinked r → Goes i r (round decode listens i r)
  unfolding round goroutine_end Goes Takes
  round-Goes i r h =
      let r' : Receiver P = record r { ctx_done = r.ctx_done || i.shut_down } in
      elim (Option-cases (goroutine_end i.picks_internal r')) [
        | inr (e, over) ↦ (
          record r' { ended = some e },
          ground (arith, over),
          record { held = ground arith; open_chan = λ c. ground (arith, h.open_chan c) },
          inr (e, refl, refl),
        )
        | inl on ↦
            let reads : Reads r' = record {
              held = ground (arith, on);
              running = ground (arith, on);
              going = ground (arith, on);
              open_chan = elim (Bool-cases r.receive_chan_closed) [
                | inl shut ↦ ground (arith, on, h.open_chan shut)
                | inr open_chan ↦ open_chan
              ];
            } in
            let k = on_read-Takes i.socket i.read r' reads in
            (k.0, ground (arith, on, k.1), k.2, inl (k.3, k.4))
      ]

  -- The goroutine runs on after the rounds `before` and has ended after one round more.
  pub record EndsAt (n : ℕ) (is : List (Round D)) (r r' : Receiver P) : Type 0 where
    pub before : Receiver P
    pub runs : receive_loop decode listens (take n is) r ≡ some before
    pub on : before.ended ≡ none
    pub ends : receive_loop decode listens (take (suc n) is) r ≡ some r'
    pub over : r'.ended ≢ none

  -- the statement of the lemma below
  Loops : List (Round D) → Receiver P → Type 0
  Loops is r =
      (n : ℕ) × (r' : Receiver P) × (receive_loop decode listens is r ≡ some r')
      × (r'.received ≡ r.received ++ all_parsed (take n is))
      × ((n ≡ length is) ⊎ EndsAt n is r r')

  pub receive_loop_over :
      (is : List (Round D)) (r : Receiver P) (e : ReceiverEnd)
      → r.ended ≡ some e
      → receive_loop decode listens is r ≡ some r
  unfolding receive_loop
  receive_loop_over [] r e over = refl
  receive_loop_over (i ∷ is) r e over = ground (arith, over)

  later :
      (n : ℕ) (i : Round D) (is : List (Round D)) (r r' r'' : Receiver P)
      → r.ended ≡ none
      → round decode listens i r ≡ some r'
      → (n ≡ length is) ⊎ EndsAt n is r' r''
      → (suc n ≡ length (i ∷ is)) ⊎ EndsAt (suc n) (i ∷ is) r r''
  unfolding receive_loop
  later n i is r r' r'' on e (inl all) = inl (omega (arith, all))
  later n i is r r' r'' on e (inr k) = inr (record {
    before = k.before;
    runs = ground (arith, on, e, k.runs);
    on = k.on;
    ends = ground (arith, on, e, k.ends);
    over = k.over;
  })

  Goes-Loops :
      (i : Round D) (is : List (Round D)) (r : Receiver P)
      → r.ended ≡ none
      → Goes i r (round decode listens i r)
      → ((r' : Receiver P) → IsLinked r' → r'.ended ≡ none → Loops is r')
      → Loops (i ∷ is) r
  unfolding receive_loop all_parsed Goes Loops
  Goes-Loops i is r on (r', e, l, inl (took, same)) rest =
      let k = rest r' l (same ∙ on) in
      (
        suc k.0,
        k.1,
        ground (arith, on, e, k.2),
        k.3
            ∙ ap (λ xs. xs ++ all_parsed (take k.0 is)) took
            ∙ append_assoc r.received (parsed i.read) (all_parsed (take k.0 is)),
        later k.0 i is r r' k.1 on e k.4,
      )
  Goes-Loops i is r on (r', e, l, inr (x, over, same)) rest = (
    0,
    r',
    ground (arith, on, e, receive_loop_over is r' x over),
    same ∙ sym (append-nil r.received),
    inr (record {
      before = r;
      runs = refl;
      on = on;
      ends = ground (arith, on, e);
      over = λ gone. ground (arith, over, gone);
    }),
  )

  -- Whatever the socket gives, and whenever the context is cancelled, the receiver does not panic. Some
  -- first rounds read, and what it has received for the client behind what was there is what they
  -- read, in their order, without what is no JSON; these are all the rounds, or the goroutine has
  -- ended in the round behind them.
  pub receive_loop_lem :
      (is : List (Round D)) (r : Receiver P)
      → IsLinked r
      → r.ended ≡ none
      → (n : ℕ) × (r' : Receiver P) × (receive_loop decode listens is r ≡ some r')
        × (r'.received ≡ r.received ++ all_parsed (take n is))
        × ((n ≡ length is) ⊎ EndsAt n is r r')
  unfolding receive_loop all_parsed Loops
  receive_loop_lem [] r h on = (0, r, refl, sym (append-nil r.received), inl refl)
  receive_loop_lem (i ∷ is) r h on = Goes-Loops i is r on (round-Goes i r h) (receive_loop_lem is)
