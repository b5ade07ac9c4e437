-- ===== src/Pool/Tests.antt =====
-- A client whose message is half sent back.
use advcpp.Prelude.{ℕ, ◌≡◌, refl, [], ◌∷◌, arith}
use advcpp.Server.{done, is_client}
use advcpp.Pool.{
  accept, send, Pool, num_bufs, on_accept, on_recv, on_send, completed, fill_buf, send_buf,
  accepted, filled, moved, listening, Reachable, first, later, add_bufs,
}
use advcpp.Pool.Kept.{IsKept, Reachable-IsKept}
use advcpp.Pool.Echoed.{AreEchoes, Reachable-AreEchoes}

abbrev connected : Pool
connected = on_accept (done 7) (completed [] [] listening)

-- Two bytes come into buffer 4095, whose number stands above the flag.
abbrev flags : ℕ
flags = 0x0fff_0001

abbrev filled_one : Pool
filled_one =
    on_recv 7 (done 2) flags
      (fill_buf 7 4095 (104 ∷ 105 ∷ []) (completed (accept ∷ []) [] connected))

abbrev half_sent : Pool
half_sent =
    on_send 7 4095 2 0 (done 1) (send_buf 7 4095 0 1 (completed [] (accept ∷ []) filled_one))

half_sent_events : half_sent.events ≡ send 7 4095 2 1 ∷ accept ∷ []
unfolding on_accept on_recv on_send
half_sent_events = refl

half_sent-Reachable : Reachable half_sent
half_sent-Reachable =
    later
      (later (later first (accepted [] [] 7 refl (unfold is_client in refl))) (
        filled (accept ∷ []) [] 7 flags 104 (105 ∷ []) (unfold on_accept in refl)
          (unfold on_accept is_client add_bufs num_bufs in refl) refl (omega arith)))
      (moved [] (accept ∷ []) 7 4095 2 0 0 (unfold on_accept on_recv in refl) (omega arith))

Reachable-IsKept_example : IsKept half_sent
Reachable-IsKept_example = Reachable-IsKept half_sent-Reachable

Reachable-AreEchoes_example : AreEchoes half_sent
Reachable-AreEchoes_example = Reachable-AreEchoes half_sent-Reachable
