-- ===== src/Irq/Loop/Tests.antt =====
-- Two frames are reported at once while every transmit buffer is in flight, and a whole run.
use advcpp.Prelude.{ℕ, ◌≤◌, ◌≡◌, refl, Bool, ltb, List, [], ◌∷◌, Result, ok, err, arith}
use advcpp.Memory.{read_le, write_le, perform}
use advcpp.Ring.{recycle_rx_buffer, publish_tx_packet}
use advcpp.Packet.{
  build_tx_reply_from_rx, tx_reply_size_for_rx, memset, copy_bytes, read_bytes,
  read_be16_from_bytes,
}
use advcpp.Receive.{read_used_idx, used_delta, read_used_elem, read_rx_used_packet}
use advcpp.Echo.{
  Echo, complete_slots, find_free_tx_slot, recycle, echo_packet, skip_packet, loop_start,
}
use advcpp.Echo.Tests.{setup, setup-HoldsReplies, idle, device, unlimited, all_taken, two_reported}
use advcpp.Echo.Ends.{HoldsReplies}
use advcpp.Irq.Loop.{
  irq_consume, irq_handle_all, irq_round, Waits, run_irq_rounds, irq_drain_tx, run_irq_echo_loop,
  wait_irq,
}
use advcpp.Irq.Loop.Ends.{irq_round-Gives, run_irq_echo_loop-ends}

unlimited-HoldsReplies : HoldsReplies unlimited
unlimited-HoldsReplies = record {
  smallest = omega arith;
  received = omega arith;
  len_fits = omega arith;
}

abbrev after : Echo × Bool
after =
    (irq_round-Gives two_reported unlimited unlimited-HoldsReplies (omega arith) all_taken
      (omega arith)).0

-- The second poll is the last one.
abbrev waits : Waits
waits = record { timeout_ms = λ n. 5; poll_irq_events = λ n ms. ok (ltb n 5) }

run_irq_echo_loop-ends_example :
    (c : Echo) × (run_irq_echo_loop 8 4 device setup waits idle ≡ ok c) × (c.echoed_tx ≤ 1)
run_irq_echo_loop-ends_example =
    run_irq_echo_loop-ends device setup setup-HoldsReplies (omega arith) waits
      (λ n ms. (ltb n 5, refl)) 8 4 idle

abbrev counts : Result Echo → List ℕ
counts (ok c) = c.received_rx ∷ c.echoed_tx ∷ c.completed_tx ∷ c.skipped_rx ∷ []
counts (err e) = []

echoed_once : counts (run_irq_echo_loop 8 4 device setup waits idle) ≡ 1 ∷ 1 ∷ 1 ∷ 0 ∷ []
unfolding run_irq_echo_loop irq_round irq_handle_all irq_consume echo_packet recycle skip_packet
    complete_slots run_irq_rounds irq_drain_tx loop_start find_free_tx_slot wait_irq
    read_rx_used_packet read_used_elem read_used_idx used_delta read_be16_from_bytes
    build_tx_reply_from_rx tx_reply_size_for_rx publish_tx_packet recycle_rx_buffer perform read_le
    write_le memset copy_bytes read_bytes
echoed_once = refl
