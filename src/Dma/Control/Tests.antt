-- ===== src/Dma/Control/Tests.antt =====
-- A layout with queues of four slots on pages of 4096 bytes, and one whose command wraps.
use advcpp.Prelude.{◌-◌, ◌<◌, ◌≡◌, ◌^◌, refl, arith, ok}
use advcpp.Sizes.{
  is_power_of_two, align_up, round_up_to_page, system_page_size, checked_add, checked_mul,
}
use advcpp.Vring.{VringLayout, compute_vring_layout}
use advcpp.Dma.Pages.{page_after}
use advcpp.Dma.Control.{CtrlqDmaLayout, compute_ctrlq_dma_layout}
use advcpp.Dma.Control.Areas.{compute_ctrlq_dma_layout_wraps}

abbrev slots : VringLayout
slots = record {
  queue_size = 4;
  align = 4;
  desc_offset = 0;
  desc_size = 64;
  avail_offset = 64;
  avail_size = 14;
  used_offset = 80;
  used_size = 38;
  total_size = 118;
}

abbrev commanding : CtrlqDmaLayout
commanding = record {
  rx_vring = slots;
  tx_vring = slots;
  ctrl_vring = slots;
  rx_vring_offset = 0;
  tx_vring_offset = 4096;
  ctrl_vring_offset = 8192;
  rx_buffers_offset = 12288;
  rx_buffers_size = 4096;
  ctrl_command_offset = 16384;
  ctrl_hdr_offset = 16384;
  ctrl_data_offset = 16386;
  ctrl_data_size = 6;
  ctrl_state_offset = 16386;
  ctrl_ack_offset = 16392;
  total_size = 20480;
}

compute_commanding : compute_ctrlq_dma_layout 4096 4 4 4 4 2 2048 6 ≡ ok commanding
unfolding compute_ctrlq_dma_layout compute_vring_layout align_up is_power_of_two round_up_to_page
    system_page_size page_after checked_add checked_mul
compute_commanding = refl

-- The receive buffers end a page below the end of the address space.
abbrev wrapping : CtrlqDmaLayout
wrapping = record commanding {
  rx_buffers_size = 2 ^ 64 - 16384;
  ctrl_command_offset = 2 ^ 64 - 4096;
  ctrl_hdr_offset = 2 ^ 64 - 4096;
  ctrl_data_offset = 2 ^ 64 - 4094;
  ctrl_data_size = 5000;
  ctrl_state_offset = 2 ^ 64 - 4094;
  ctrl_ack_offset = 906;
  total_size = 4096;
}

compute_wrapping : compute_ctrlq_dma_layout 4096 4 4 4 4 2 (2 ^ 63 - 8192) 5000 ≡ ok wrapping
unfolding compute_ctrlq_dma_layout compute_vring_layout align_up is_power_of_two round_up_to_page
    system_page_size page_after checked_add checked_mul
compute_wrapping = refl

compute_ctrlq_dma_layout_wraps_example : 906 < 2 ^ 64 - 4096
compute_ctrlq_dma_layout_wraps_example =
    compute_ctrlq_dma_layout_wraps 4096 4 4 4 4 2 (2 ^ 63 - 8192) 5000 (omega arith)
      compute_wrapping (omega arith)
