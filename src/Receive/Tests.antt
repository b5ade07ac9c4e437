-- ===== src/Receive/Tests.antt =====
-- A receive queue of four slots with one used entry, for descriptor 1 and 64 bytes.
use advcpp.Prelude.{◌+◌, ◌≡◌, refl, [], ◌∷◌, arith, some}
use advcpp.Memory.{Memory, read_le, write_le}
use advcpp.Sizes.Power.{PowerOfTwo}
use advcpp.Vring.{VringLayout}
use advcpp.Dma.{DmaLayout}
use advcpp.Packet.{read_be16_from_bytes}
use advcpp.Receive.{
  ReceivedPacket, read_used_elem, read_used_idx, used_delta, read_rx_used_packet, scan_used,
  scan_rounds, wait_for_matching_rx_packet,
}
use advcpp.Receive.Safety.{IsInside, wait_for_matching_rx_packet-IsInside}

abbrev slots : VringLayout
slots = record {
  queue_size = 4;
  align = 4;
  desc_offset = 0;
  desc_size = 64;
  avail_offset = 64;
  avail_size = 14;
  used_offset = 80;
  used_size = 38;
  total_size = 118;
}

abbrev receiving : DmaLayout
receiving = record {
  rx_vring = slots;
  tx_vring = slots;
  rx_vring_offset = 0;
  tx_vring_offset = 4096;
  rx_buffers_offset = 8192;
  rx_buffers_size = 4096;
  tx_packet_offset = 0;
  tx_packet_size = 0;
  tx_buffers_offset = 0;
  tx_buffers_size = 0;
  tx_buffer_size = 0;
  total_size = 12288;
}

abbrev idle : Memory
idle = λ x. 0

abbrev answered : Memory
answered =
    write_le 2 82 1
      (write_le 4 84 1 (write_le 4 88 64 (write_le 2 (8192 + 2048 + 12 + 12) 0xb588 (λ x. 0))))

abbrev packet : ReceivedPacket
packet = record {
  used_slot = 0;
  desc_id = 1;
  used_len = 64;
  ethertype = 0x88b5;
  buffer = 8192 + 2048;
}

-- Nothing in the first round, the packet in the third.
received :
    wait_for_matching_rx_packet idle (idle ∷ answered ∷ []) 0 receiving 0 2 2048 (some 0x88b5) 1000
    ≡ some packet
unfolding wait_for_matching_rx_packet scan_rounds scan_used read_rx_used_packet read_used_elem
    read_used_idx used_delta read_be16_from_bytes read_le write_le
received = refl

wait_for_matching_rx_packet-IsInside_example : IsInside receiving 2 2048 packet
wait_for_matching_rx_packet-IsInside_example =
    wait_for_matching_rx_packet-IsInside receiving 2 2048 (omega arith) (omega arith) idle
      (idle ∷ answered ∷ []) 0 0 (some 0x88b5) 1000 received

power_4 : PowerOfTwo 4
power_4 = (2, omega arith)
