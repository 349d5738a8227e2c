-- ===== src/Gateway/PacketQueue/Flush.antt =====
-- How packets leave the queue: a write that fails leaves its packet at the head, one that succeeds
-- takes it off.
use disgord.Base.{
  ℕ, zero, suc, ◌≡◌, refl, List, [], ◌∷◌, ◌++◌, Option, none, some, arith, length, take, ◌>>=◌,
}
use disgord.Base.Int.{ℤ}
use disgord.Util.Shift.{shift_left-cons}
use disgord.Gateway.Command.{ClientPacket}
use disgord.Gateway.PacketQueue.{PacketQueue, try}

module _ {E : Type 0} where
  -- What `Try` promises: the packets left and the error, of the packets and the write.
  abbrev pub tried : (ClientPacket → Option E) → List ClientPacket → List ClientPacket × Option E
  tried cb [] = ([], none)
  tried cb (m ∷ ms) = elim (cb m) [ some e ↦ (m ∷ ms, some e) | none ↦ (ms, none) ]

  -- `Try` never panics. On an empty queue it does nothing, on a write that fails it returns the
  -- error and changes nothing, and on a write that succeeds it takes off the first packet and
  -- keeps the others in order; the limit stays.
  pub try_lem :
      (cb : ClientPacket → Option E) (ms : List ClientPacket) (limit : ℤ)
      → let (left, result) = tried cb ms in
        try cb (record { messages = ms; limit = limit })
        ≡ some (record { messages = left; limit = limit }, result)
  unfolding try
  try_lem cb [] limit = refl
  try_lem cb (m ∷ ms) limit = ground (arith, shift_left-cons m ms)

-- `n` successful writes of the emitter, each of the packet at the head; what they write is kept.
unfoldable pub writes : ℕ → PacketQueue → Option (List ClientPacket × PacketQueue)
writes zero c = some ([], c)
writes (suc n) c = do
  (c', error) ← try {E = Unit {0}} (λ _. none) c
  (sent, c'') ← writes n c'
  some (take 1 c.messages ++ sent, c'')

-- As many successful tries as there are packets write every packet, once and in order, and leave
-- the queue empty.
writes_all :
    (ms : List ClientPacket) (limit : ℤ)
    → writes (length ms) (record { messages = ms; limit = limit })
      ≡ some (ms, record { messages = []; limit = limit })
unfolding writes
writes_all [] limit = refl
writes_all (m ∷ ms) limit =
    ground (arith, try_lem {E = Unit {0}} (λ _. none) (m ∷ ms) limit, writes_all ms limit)
