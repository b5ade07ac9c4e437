-- ===== src/Dma/Control.antt =====
-- The DMA memory of the samples that use the control queue: `compute_ctrlq_dma_layout`, and the
-- sizes of the parts of a control command.
pub mod Areas
mod Tests
use advcpp.Prelude.{ℕ, ◌+◌, ltb, ◌==◌, u64, u32_max, Result, ok, ◌>>=◌, ◌>>◌, throw_if}
use advcpp.Prelude.{rx_buffers_zero, rx_buffers_exceed_queue, rx_buffer_size_zero}
use advcpp.Prelude.{ctrl_queue_too_small, ctrl_data_zero, ctrl_data_too_large}
use advcpp.Sizes.{round_up_to_page, checked_add, checked_mul}
use advcpp.Vring.{VringLayout, compute_vring_layout}
use advcpp.Dma.Pages.{page_after}

abbrev pub ctrl_hdr_size : ℕ
ctrl_hdr_size = 2

abbrev pub ctrl_state_size : ℕ
ctrl_state_size = 1

abbrev pub ctrl_mac_table_count_size : ℕ
ctrl_mac_table_count_size = 4

abbrev pub ctrl_mac_addr_size : ℕ
ctrl_mac_addr_size = 6

abbrev pub ctrl_ack_size : ℕ
ctrl_ack_size = 1

pub record CtrlqDmaLayout : Type 0 where
  pub rx_vring : VringLayout
  pub tx_vring : VringLayout
  pub ctrl_vring : VringLayout
  pub rx_vring_offset : ℕ
  pub tx_vring_offset : ℕ
  pub ctrl_vring_offset : ℕ
  pub rx_buffers_offset : ℕ
  pub rx_buffers_size : ℕ
  pub ctrl_command_offset : ℕ
  pub ctrl_hdr_offset : ℕ
  pub ctrl_data_offset : ℕ
  pub ctrl_data_size : ℕ
  pub ctrl_state_offset : ℕ
  pub ctrl_ack_offset : ℕ
  pub total_size : ℕ

-- The offsets inside the command area are plain sums on `std::size_t`.
pub compute_ctrlq_dma_layout : ℕ → ℕ → ℕ → ℕ → ℕ → ℕ → ℕ → ℕ → Result CtrlqDmaLayout
compute_ctrlq_dma_layout page rx_queue_size tx_queue_size ctrl_queue_size align rx_buffers
      rx_buffer_size ctrl_data_size =
    do
      throw_if (rx_buffers == 0) rx_buffers_zero
      throw_if (ltb rx_queue_size rx_buffers) rx_buffers_exceed_queue
      throw_if (rx_buffer_size == 0) rx_buffer_size_zero
      throw_if (ltb ctrl_queue_size 3) ctrl_queue_too_small
      throw_if (ctrl_data_size == 0) ctrl_data_zero
      throw_if (ltb u32_max ctrl_data_size) ctrl_data_too_large
      rx ← compute_vring_layout rx_queue_size align
      tx ← compute_vring_layout tx_queue_size align
      ctrl ← compute_vring_layout ctrl_queue_size align
      tx_at ← round_up_to_page page rx.total_size
      ctrl_at ← page_after page tx_at tx.total_size
      buffers_at ← page_after page ctrl_at ctrl.total_size
      buffers_size ← checked_mul rx_buffers rx_buffer_size
      command_at ← page_after page buffers_at buffers_size
      let data_at = u64 (command_at + ctrl_hdr_size)
      let ack_at = u64 (data_at + ctrl_data_size)
      total ← page_after page ack_at ctrl_ack_size
      ok (record {
        rx_vring = rx;
        tx_vring = tx;
        ctrl_vring = ctrl;
        rx_vring_offset = 0;
        tx_vring_offset = tx_at;
        ctrl_vring_offset = ctrl_at;
        rx_buffers_offset = buffers_at;
        rx_buffers_size = buffers_size;
        ctrl_command_offset = command_at;
        ctrl_hdr_offset = command_at;
        ctrl_data_offset = data_at;
        ctrl_data_size = ctrl_data_size;
        ctrl_state_offset = data_at;
        ctrl_ack_offset = ack_at;
        total_size = total;
      })

pub mac_table_control_data_size : ℕ → ℕ → Result ℕ
mac_table_control_data_size unicast_macs multicast_macs = do
  unicast ← checked_mul unicast_macs ctrl_mac_addr_size
  unicast_bytes ← checked_add ctrl_mac_table_count_size unicast
  multicast ← checked_mul multicast_macs ctrl_mac_addr_size
  multicast_bytes ← checked_add ctrl_mac_table_count_size multicast
  checked_add unicast_bytes multicast_bytes
