-- ===== src/Gateway/PacketQueue/Tests.antt =====
-- Runs of the packet queue, and its theorems at concrete inputs.
use disgord.Base.{ℕ, ◌≡◌, refl, List, [], ◌∷◌, some, none, arith}
use disgord.Base.Int.{pos}
use disgord.Util.Shift.{shift_left}
use disgord.Gateway.Command.{ClientPacket, foreign, event_status_update}
use disgord.Gateway.PacketQueue.{
  new_client_pkt_queue, append_packet, add_by_overwrite, overwrite, try,
}
use disgord.Gateway.PacketQueue.Valid.{
  Call, adds, goes_on, tries, step, run, Shared, new_shared, IsShared, run-IsShared,
}

abbrev status : ℕ → ClientPacket
status n = record { op = event_status_update; body = foreign n; cmd_name = "UPDATE_STATUS" }

abbrev voice : ℕ → ClientPacket
voice n = record { op = 4; body = foreign n; cmd_name = "UPDATE_VOICE_STATE" }

-- A status update is replaced, and of a second one nobody else is in the way.
abbrev calls : List Call
calls =
    adds (status 1)
    ∷ goes_on 0
    ∷ adds (voice 2)
    ∷ adds (status 3)
    ∷ adds (voice 4)
    ∷ tries none
    ∷ []

run-IsShared_example : (s : Shared) × (run calls (new_shared 2) ≡ some s) × IsShared 2 s
run-IsShared_example = run-IsShared 2 calls (omega arith)

calls_leave_voice :
    run calls (new_shared 2)
    ≡ some (record {
      queue = record { messages = voice 2 ∷ []; limit = pos 2 };
      pending = [];
      overlaps = 0;
    })
unfolding run step append_packet add_by_overwrite overwrite try shift_left new_client_pkt_queue
calls_leave_voice = refl

-- Two status updates find none to overwrite before either is appended: both are queued.
two_statuses :
    run (adds (status 1) ∷ adds (status 3) ∷ goes_on 0 ∷ goes_on 0 ∷ []) (new_shared 2)
    ≡ some (record {
      queue = record { messages = status 3 ∷ status 1 ∷ []; limit = pos 2 };
      pending = [];
      overlaps = 1;
    })
unfolding run step append_packet add_by_overwrite overwrite new_client_pkt_queue
two_statuses = refl
