-- ===== src/Gateway/Client/Send/Order.antt =====
-- internal/gateway/client.go (emitter): what is written, and in which order.
use mathlib.Core.List.{append-nil, append_assoc}
use disgord.Base.{
  ◌≡◌, refl, sym, ap, ◌∙◌, inl, inr, List, [], ◌∷◌, ◌++◌, map, ◌==◌, Option, some, Bool, true,
  false, length, arith, Option-cases, All, Bool-cases,
}
use disgord.Base.Int.{eq_pos}
use disgord.Gateway.Command.{ClientPacket}
use disgord.Gateway.PacketQueue.{PacketQueue, append_packet, add_by_overwrite, overwrite, is_empty}
use disgord.Gateway.PacketQueue.Flush.{try_lem}
use disgord.Gateway.Client.{Outgoing}
use disgord.Gateway.Client.Send.{
  Written, command, internal, stopped, reconnects, Emitter, Case, ctx_done, internal_done,
  channel_closed, timeout, internal_emit, user_appends, user_overwrites, write, write_result,
  write_first, write_queued, accept, emit_round, emit_loop, new_emitter,
}

-- The commands of users, of what is written.
unfoldable pub commands : List Written → List ClientPacket
commands [] = []
commands (command m ∷ ss) = m ∷ commands ss
commands (internal o ∷ ss) = commands ss

commands-append : (xs ys : List Written) → commands (xs ++ ys) ≡ commands xs ++ commands ys
unfolding commands
commands-append [] ys = refl
commands-append (command m ∷ ss) ys = ap (λ zs. m ∷ zs) (commands-append ss ys)
commands-append (internal o ∷ ss) ys = commands-append ss ys

-- A view of packets that no overwriting changes: it does not tell two packets apart of which one may
-- overwrite the other.
abbrev pub IsKept : {B : Type 0} → (ClientPacket → B) → Case → Type 0
IsKept f (user_overwrites msg) = (m : ClientPacket) → (m.op == msg.op) ≡ true → f m ≡ f msg
IsKept f i = Unit {0}

write-commands :
    (m : ClientPacket) (e : Emitter)
    → commands (e.written ++ (command m ∷ [])) ≡ commands e.written ++ m ∷ []
unfolding commands
write-commands m e = commands-append e.written (command m ∷ [])

write_internal :
    (o : Outgoing) (e : Emitter) → commands (e.written ++ (internal o ∷ [])) ≡ commands e.written
unfolding commands
write_internal o e = commands-append e.written (internal o ∷ []) ∙ append-nil (commands e.written)

module _ {B : Type 0} (f : ClientPacket → B) where
  -- What waited, with what was appended since, is what is written, then what waits, as `f` sees it.
  abbrev IsInOrder : List ClientPacket → Emitter → Type 0
  IsInOrder start e =
      map f (commands e.written ++ e.message_queue.messages) ≡ map f (start ++ e.accepted)

  abbrev Steps : List ClientPacket → Option Emitter → Type 0
  Steps start o = (e' : Emitter) × (o ≡ some e') × IsInOrder start e'

  map-last :
      (xs ys : List ClientPacket) (m : ClientPacket)
      → map f (xs ++ (ys ++ m ∷ [])) ≡ map f (xs ++ ys) ++ f m ∷ []
  map-last [] [] m = refl
  map-last [] (y ∷ ys) m = ap (λ l. f y ∷ l) (map-last [] ys m)
  map-last (x ∷ xs) ys m = ap (λ l. f x ∷ l) (map-last xs ys m)

  map-behind :
      (xs ys zs : List ClientPacket) → map f ys ≡ map f zs → map f (xs ++ ys) ≡ map f (xs ++ zs)
  map-behind [] ys zs h = h
  map-behind (x ∷ xs) ys zs h = ap (λ l. f x ∷ l) (map-behind xs ys zs h)

  overwrite-map :
      (msg : ClientPacket) (ms ms' : List ClientPacket)
      → IsKept f (user_overwrites msg)
      → overwrite msg ms ≡ some ms'
      → map f ms' ≡ map f ms
  unfolding overwrite
  overwrite-map msg [] ms' h e = absurd (ground (arith, e))
  overwrite-map msg (m ∷ ms) ms' h e = elim (Bool-cases (m.op == msg.op)) [
    | inl hit ↦ let same = h m hit in ground (arith, e, hit, same)
    | inr miss ↦ elim (Option-cases (overwrite msg ms)) [
      | inl g ↦ absurd (ground (arith, e, miss, g))
      | inr (rest, g) ↦ ground (arith, e, miss, g, overwrite-map msg ms rest h g)
    ]
  ]

  accept-IsInOrder :
      (start : List ClientPacket) (msg : ClientPacket) (e : Emitter)
      → IsInOrder start e
      → IsInOrder start (accept msg e)
  unfolding accept append_packet
  accept-IsInOrder start msg e k =
      let q : PacketQueue = e.message_queue in
      elim (Bool-cases (eq_pos (length q.messages) q.limit)) [
        | inl full ↦ rw full k
        | inr fits ↦ rw fits (
            map-last (commands e.written) q.messages msg
            ∙ ap (λ l. l ++ f msg ∷ []) k
            ∙ sym (map-last start e.accepted msg))
      ]

  overwrite-IsInOrder :
      (start : List ClientPacket) (msg : ClientPacket) (e : Emitter)
      → IsKept f (user_overwrites msg)
      → IsInOrder start e
      → IsInOrder start (record e { message_queue = (add_by_overwrite msg e.message_queue).0 })
  unfolding add_by_overwrite commands
  overwrite-IsInOrder start msg e h k =
      elim (Option-cases (overwrite msg e.message_queue.messages)) [
        | inl none_there ↦ rw (add_by_overwrite, none_there) k
        | inr (ms, hit) ↦
            rw (add_by_overwrite, hit)
              (map-behind (commands e.written) ms e.message_queue.messages
                  (overwrite-map msg e.message_queue.messages ms h hit)
                ∙ k)
      ]

  write_queued-Steps :
      (start : List ClientPacket) (fails : Bool) (ms : List ClientPacket) (e : Emitter)
      → e.message_queue.messages ≡ ms
      → IsInOrder start e
      → Steps start (write_queued fails e)
  unfolding write_queued write_first write write_result is_empty
  write_queued-Steps start fails [] e same k = (e, ground (arith, same), k)
  write_queued-Steps start true (m ∷ ms) e same k = (
    record e {
      cancelled = true;
      message_queue = record { messages = m ∷ ms; limit = e.message_queue.limit };
    },
    ground (arith, same, try_lem (write_result true) (m ∷ ms) e.message_queue.limit),
    ap (λ l. map f (commands e.written ++ l)) (sym same) ∙ k,
  )
  write_queued-Steps start false (m ∷ ms) e same k = (
    record e {
      written = e.written ++ (command m ∷ []);
      message_queue = record { messages = ms; limit = e.message_queue.limit };
    },
    ground (arith, same, try_lem (write_result false) (m ∷ ms) e.message_queue.limit),
    ap (map f) (
          ap (λ l. l ++ ms) (write-commands m e)
          ∙ append_assoc (commands e.written) (m ∷ []) ms
          ∙ ap (λ l. commands e.written ++ l) (sym same))
        ∙ k,
  )

  emit_round-Steps :
      (start : List ClientPacket) (i : Case) (e : Emitter)
      → IsKept f i
      → IsInOrder start e
      → Steps start (emit_round i e)
  unfolding emit_round write
  emit_round-Steps start ctx_done e h k = (record e { ended = some stopped }, refl, k)
  emit_round-Steps start internal_done e h k = elim (Bool-cases e.cancelled) [
    | inl failed ↦ (record e { ended = some reconnects }, ground (arith, failed), k)
    | inr fine ↦ (e, ground (arith, fine), k)
  ]
  emit_round-Steps start channel_closed e h k = (e, refl, k)
  emit_round-Steps start (timeout fails) e h k =
      write_queued-Steps start fails e.message_queue.messages e refl k
  emit_round-Steps start (internal_emit o true) e h k = (record e { cancelled = true }, refl, k)
  emit_round-Steps start (internal_emit o false) e h k = (
    record e { written = e.written ++ (internal o ∷ []) },
    refl,
    ap (λ l. map f (l ++ e.message_queue.messages)) (write_internal o e) ∙ k,
  )
  emit_round-Steps start (user_appends msg) e h k =
      (accept msg e, refl, accept-IsInOrder start msg e k)
  emit_round-Steps start (user_overwrites msg) e h k = (
    record e { message_queue = (add_by_overwrite msg e.message_queue).0 },
    refl,
    overwrite-IsInOrder start msg e h k,
  )

  emit_loop_lem :
      (is : List Case) (start : List ClientPacket) (e : Emitter)
      → All (IsKept f) is
      → IsInOrder start e
      → Steps start (emit_loop is e)
  unfolding emit_loop
  emit_loop_lem [] start e h k = (e, refl, k)
  emit_loop_lem (i ∷ is) start e h k = elim (Option-cases e.ended) [
    | inr (x, over) ↦ (e, ground (arith, over), k)
    | inl on ↦
        let now = emit_round-Steps start i e h.0 k in
        let rest = emit_loop_lem is start now.0 h.1 now.2 in
        (rest.0, ground (arith, on, now.1, rest.1), rest.2)
  ]

  -- Whatever the select takes, whichever writes fail, and whatever users append and overwrite
  -- meanwhile, a new emitter does not panic. What is written of the commands, then what still waits,
  -- is what waited at the start, then what was appended since, as any view sees them that no
  -- overwriting changes: with the operation codes for the view always, and with whole packets as long
  -- as nothing is overwritten. So no place in the line is lost, doubled or overtaken.
  pub emit_loop-new_emitter :
      (is : List Case) (q : PacketQueue)
      → All (IsKept f) is
      → (e : Emitter) × (emit_loop is (new_emitter q) ≡ some e)
        × (map f (commands e.written ++ e.message_queue.messages)
            ≡ map f (q.messages ++ e.accepted))
  unfolding commands
  emit_loop-new_emitter is q h =
      emit_loop_lem is q.messages (new_emitter q) h (ap (map f) (sym (append-nil q.messages)))
