-- ===== src/Echo/Tests.antt =====
-- Queues of four slots, two receive and three transmit buffers of 2048 bytes, and a device that
-- reports one frame.
use advcpp.Prelude.{
  ℕ, ◌+◌, ◌%◌, ◌≡◌, refl, Option, none, some, List, [], ◌∷◌, arith, ok, err, Result, leb, ◌==◌,
  if◌then◌else◌,
}
use advcpp.Memory.{Memory, read_le, write_le, perform}
use advcpp.Sizes.{
  is_power_of_two, align_up, round_up_to_page, system_page_size, checked_add, checked_mul,
}
use advcpp.Vring.{VringLayout, compute_vring_layout}
use advcpp.Dma.{DmaLayout, compute_dma_layout_pools}
use advcpp.Dma.Pages.{page_after}
use advcpp.Ring.{vring_avail_idx, recycle_rx_buffer, publish_tx_packet}
use advcpp.Packet.{
  build_tx_reply_from_rx, tx_reply_size_for_rx, memset, copy_bytes, read_bytes,
  read_be16_from_bytes,
}
use advcpp.Receive.{ReceivedPacket, read_used_idx, used_delta, read_used_elem, read_rx_used_packet}
use advcpp.Receive.Safety.{IsInside}
use advcpp.Echo.{
  Setup, Echo, Device, next, stop, complete_slots, consume_tx_completions, find_free_tx_slot,
  wait_free_slot, recycle, echo_packet, receive_packet, skip_packet, handle_used, handle_all,
  echo_round, run_rounds, drain_tx, loop_start, run_echo_loop,
}
use advcpp.Echo.Slots.{taken, free}
use advcpp.Echo.Invariant.{IsSound}
use advcpp.Echo.Ends.{HoldsReplies, run_echo_loop-ends}
use advcpp.Echo.Prepared.{IsPrepared}
use advcpp.Echo.Answer.{answered, IsAnswered, echo_packet-answers}

abbrev pub slots : VringLayout
slots = record {
  queue_size = 4;
  align = 4;
  desc_offset = 0;
  desc_size = 64;
  avail_offset = 64;
  avail_size = 14;
  used_offset = 80;
  used_size = 38;
  total_size = 118;
}

abbrev pub echoing : DmaLayout
echoing = record {
  rx_vring = slots;
  tx_vring = slots;
  rx_vring_offset = 0;
  tx_vring_offset = 4096;
  rx_buffers_offset = 8192;
  rx_buffers_size = 4096;
  tx_packet_offset = 12288;
  tx_packet_size = 2048;
  tx_buffers_offset = 12288;
  tx_buffers_size = 6144;
  tx_buffer_size = 2048;
  total_size = 20480;
}

compute_echoing : compute_dma_layout_pools 4096 4 4 4 2 3 2048 2048 ≡ ok echoing
unfolding compute_dma_layout_pools compute_vring_layout align_up is_power_of_two round_up_to_page
    system_page_size page_after checked_add checked_mul
compute_echoing = refl

abbrev pub setup : Setup
setup = record {
  rx_queue_base = 0;
  tx_queue_base = 4096;
  layout = echoing;
  tx_buffers_iova = 0x100003000;
  reply_src_mac = 2 ∷ 0 ∷ 0 ∷ 0 ∷ 0 ∷ 7 ∷ [];
  rx_buffers = 2;
  tx_buffers = 3;
  rx_buffer_size = 2048;
  match_ethertype = some 0x88b5;
  run_ms = 30000;
  max_packets = 1;
}

abbrev pub setup-HoldsReplies : HoldsReplies setup
setup-HoldsReplies = record {
  smallest = omega arith;
  received = omega arith;
  len_fits = omega arith;
}

setup-IsPrepared : IsPrepared setup 4096 4 4 4
setup-IsPrepared = record {
  computed = compute_echoing;
  page_fits = omega arith;
  rxq_fits = omega arith;
  txq_fits = omega arith;
  align_fits = omega arith;
  rx_at = refl;
  tx_at = refl;
  iova_fits = omega arith;
  mac = refl;
  holds = setup-HoldsReplies;
}

abbrev pub idle : Memory
idle = λ x. 0

-- One used entry, for descriptor 1 and 64 bytes.
abbrev pub reported : Memory
reported =
    write_le 2 82 1
      (write_le 4 84 1 (write_le 4 88 64 (write_le 2 (8192 + 2048 + 12 + 12) 0xb588 idle)))

-- The entry is there from the third look on, and the transmission is complete from the sixth.
abbrev pub device : Device
device n m = if n == 3 then reported else if n == 5 then write_le 2 4178 1 m else m

abbrev counts : Result (Option Echo) → List ℕ
counts (ok (some c)) = c.received_rx ∷ c.echoed_tx ∷ c.completed_tx ∷ c.skipped_rx ∷ []
counts (ok none) = []
counts (err e) = []

echoed_once : counts (run_echo_loop 9 8 4 device setup idle) ≡ 1 ∷ 1 ∷ 1 ∷ 0 ∷ []
unfolding run_echo_loop echo_round handle_all handle_used receive_packet wait_free_slot echo_packet
    recycle skip_packet consume_tx_completions complete_slots run_rounds drain_tx loop_start
    find_free_tx_slot read_rx_used_packet read_used_elem read_used_idx used_delta
    read_be16_from_bytes build_tx_reply_from_rx tx_reply_size_for_rx publish_tx_packet
    recycle_rx_buffer perform read_le write_le memset copy_bytes read_bytes
echoed_once = refl

run_echo_loop-ends_example :
    (c : Echo) × (run_echo_loop 9 8 4 device setup idle ≡ ok (some c)) × IsSound setup 8 c
run_echo_loop-ends_example =
    run_echo_loop-ends device setup setup-HoldsReplies (omega arith) (λ e. absurd (omega arith)) 9 8
      4 idle (omega arith)

abbrev packet : ReceivedPacket
packet = record {
  used_slot = 0;
  desc_id = 1;
  used_len = 64;
  ethertype = 0x88b5;
  buffer = 8192 + 2048;
}

packet-IsInside : IsInside echoing 2 2048 packet
packet-IsInside = record {
  posted = omega arith;
  header = omega arith;
  fits = omega arith;
  own = refl;
  inside = omega arith;
}

-- Before an answer, with every slot free.
abbrev pub waiting : Echo
waiting = record {
  memory = reported;
  tx_slots = free ∷ free ∷ free ∷ [];
  last_rx_used_idx = 0;
  last_tx_used_idx = 0;
  received_rx = 1;
  echoed_tx = 0;
  completed_tx = 0;
  skipped_rx = 0;
  notified = [];
  looks = 2;
  ticks = 5;
}

queues_empty :
    (read_le 2 (vring_avail_idx 4096 slots) reported ≡ (0 + 0) % 65536)
    × (read_le 2 (vring_avail_idx 0 slots) reported ≡ (0 + 0) % 65536)
unfolding read_le write_le
queues_empty = (refl, refl)

echo_packet-answers_example :
    (m : Memory) × (let c =
        answered setup 4096 4 4 4 setup-IsPrepared packet packet-IsInside 0
          (omega arith)
          waiting
          m in
      echo_packet setup packet 0 waiting ≡ ok (if leb 1 c.echoed_tx then stop c else next c))
    × IsAnswered setup 4096 4 4 4 setup-IsPrepared packet packet-IsInside 0
        (omega arith)
        waiting
        0
        0
        0
        0
        m
echo_packet-answers_example =
    echo_packet-answers setup 4096 4 4 4 setup-IsPrepared packet packet-IsInside 0 (omega arith)
      waiting 0 0 0 0 (omega arith) (omega arith) queues_empty.0 queues_empty.1

-- No time limit, every slot in flight, and two frames at once.
abbrev pub unlimited : Setup
unlimited = record setup { run_ms = 0; max_packets = 9 }

abbrev pub all_taken : Echo
all_taken = record waiting {
  memory = idle;
  tx_slots = taken ∷ taken ∷ taken ∷ [];
  looks = 0;
  ticks = 0;
}

abbrev pub two_reported : Device
two_reported n m =
    if n == 1 then write_le 2 82 2 (write_le 4 92 0 (write_le 4 96 64 reported)) else m
