-- ===== src/Dma/Tests.antt =====
-- DMA layouts for queues of four slots, on pages of 4096 bytes.
use advcpp.Prelude.{◌*◌, ◌≤◌, ◌≡◌, refl, [], ◌∷◌, ◌++◌, arith, ok, err}
use advcpp.Prelude.{rx_buffers_exceed_queue}
use advcpp.Sizes.{
  is_power_of_two, align_up, round_up_to_page, system_page_size, checked_add, checked_mul,
}
use advcpp.Vring.{VringLayout, compute_vring_layout}
use advcpp.Dma.{
  DmaLayout, compute_dma_layout_packet, compute_dma_layout_rx, compute_dma_layout_pools,
}
use advcpp.Dma.Pages.{page_after, Stacked}
use advcpp.Dma.Areas.{areas, IsPlaced, compute_dma_layout_pools-Stacked}

abbrev slots : VringLayout
slots = record {
  queue_size = 4;
  align = 4;
  desc_offset = 0;
  desc_size = 64;
  avail_offset = 64;
  avail_size = 14;
  used_offset = 80;
  used_size = 38;
  total_size = 118;
}

abbrev receiving : DmaLayout
receiving = record {
  rx_vring = slots;
  tx_vring = slots;
  rx_vring_offset = 0;
  tx_vring_offset = 4096;
  rx_buffers_offset = 8192;
  rx_buffers_size = 4096;
  tx_packet_offset = 0;
  tx_packet_size = 0;
  tx_buffers_offset = 0;
  tx_buffers_size = 0;
  tx_buffer_size = 0;
  total_size = 12288;
}

abbrev sending : DmaLayout
sending = record receiving {
  tx_packet_offset = 12288;
  tx_packet_size = 72;
  tx_buffers_offset = 12288;
  tx_buffers_size = 72;
  tx_buffer_size = 72;
  total_size = 16384;
}

abbrev echoing : DmaLayout
echoing = record sending {
  tx_buffers_size = 6144;
  tx_packet_size = 2048;
  tx_buffer_size = 2048;
  total_size = 20480;
}

compute_receiving : compute_dma_layout_rx 4096 4 4 4 2 2048 ≡ ok receiving
unfolding compute_dma_layout_rx compute_vring_layout align_up is_power_of_two round_up_to_page
    system_page_size page_after checked_add checked_mul
compute_receiving = refl

compute_sending : compute_dma_layout_packet 4096 4 4 4 2 2048 72 ≡ ok sending
unfolding compute_dma_layout_packet compute_vring_layout align_up is_power_of_two round_up_to_page
    system_page_size page_after checked_add checked_mul
compute_sending = refl

compute_echoing : compute_dma_layout_pools 4096 4 4 4 2 3 2048 2048 ≡ ok echoing
unfolding compute_dma_layout_pools compute_vring_layout align_up is_power_of_two round_up_to_page
    system_page_size page_after checked_add checked_mul
compute_echoing = refl

too_many_buffers : compute_dma_layout_rx 4096 4 4 4 5 2048 ≡ err rx_buffers_exceed_queue
unfolding compute_dma_layout_rx
too_many_buffers = refl

compute_dma_layout_pools-Stacked_example :
    IsPlaced 4 4 4 2 2048 echoing
    × (3 ≤ 4)
    × Stacked 4096 0 (areas echoing ++ (12288, 3 * 2048) ∷ []) 20480
compute_dma_layout_pools-Stacked_example =
    compute_dma_layout_pools-Stacked 4096 4 4 4 2 2048 (omega arith) (omega arith) (omega arith)
      (omega arith) 3 2048 compute_echoing
