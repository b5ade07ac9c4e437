-- ===== src/Dma.antt =====
-- The DMA memory of a sample of userspace_drivers/virtio_net_vfio.hpp: one mapping that holds the
-- queues and the packet buffers. `page` is what `sysconf(_SC_PAGESIZE)` returns.
pub mod Areas
pub mod Control
pub mod Pages
mod Tests
use advcpp.Prelude.{ℕ, ltb, ◌==◌, Result, ok, ◌>>=◌, ◌>>◌, throw_if}
use advcpp.Prelude.{rx_buffers_zero, rx_buffers_exceed_queue, rx_buffer_size_zero}
use advcpp.Prelude.{tx_packet_size_zero, tx_buffers_zero, tx_buffers_exceed_queue}
use advcpp.Prelude.{tx_buffer_size_zero}
use advcpp.Sizes.{round_up_to_page, checked_mul}
use Pages.{page_after}
use advcpp.Vring.{VringLayout, compute_vring_layout}

pub record DmaLayout : Type 0 where
  pub rx_vring : VringLayout
  pub tx_vring : VringLayout
  pub rx_vring_offset : ℕ
  pub tx_vring_offset : ℕ
  pub rx_buffers_offset : ℕ
  pub rx_buffers_size : ℕ
  pub tx_packet_offset : ℕ
  pub tx_packet_size : ℕ
  pub tx_buffers_offset : ℕ
  pub tx_buffers_size : ℕ
  pub tx_buffer_size : ℕ
  pub total_size : ℕ

-- The overload for one packet to transmit.
pub compute_dma_layout_packet : ℕ → ℕ → ℕ → ℕ → ℕ → ℕ → ℕ → Result DmaLayout
compute_dma_layout_packet page rx_queue_size tx_queue_size align rx_buffers rx_buffer_size tx_size =
    do
      throw_if (rx_buffers == 0) rx_buffers_zero
      throw_if (ltb rx_queue_size rx_buffers) rx_buffers_exceed_queue
      throw_if (rx_buffer_size == 0) rx_buffer_size_zero
      throw_if (tx_size == 0) tx_packet_size_zero
      rx ← compute_vring_layout rx_queue_size align
      tx ← compute_vring_layout tx_queue_size align
      tx_at ← round_up_to_page page rx.total_size
      buffers_at ← page_after page tx_at tx.total_size
      buffers_size ← checked_mul rx_buffers rx_buffer_size
      packet_at ← page_after page buffers_at buffers_size
      total ← page_after page packet_at tx_size
      ok (record {
        rx_vring = rx;
        tx_vring = tx;
        rx_vring_offset = 0;
        tx_vring_offset = tx_at;
        rx_buffers_offset = buffers_at;
        rx_buffers_size = buffers_size;
        tx_packet_offset = packet_at;
        tx_packet_size = tx_size;
        tx_buffers_offset = packet_at;
        tx_buffers_size = tx_size;
        tx_buffer_size = tx_size;
        total_size = total;
      })

-- The overload that only receives.
pub compute_dma_layout_rx : ℕ → ℕ → ℕ → ℕ → ℕ → ℕ → Result DmaLayout
compute_dma_layout_rx page rx_queue_size tx_queue_size align rx_buffers rx_buffer_size = do
  throw_if (rx_buffers == 0) rx_buffers_zero
  throw_if (ltb rx_queue_size rx_buffers) rx_buffers_exceed_queue
  throw_if (rx_buffer_size == 0) rx_buffer_size_zero
  rx ← compute_vring_layout rx_queue_size align
  tx ← compute_vring_layout tx_queue_size align
  tx_at ← round_up_to_page page rx.total_size
  buffers_at ← page_after page tx_at tx.total_size
  buffers_size ← checked_mul rx_buffers rx_buffer_size
  total ← page_after page buffers_at buffers_size
  ok (record {
    rx_vring = rx;
    tx_vring = tx;
    rx_vring_offset = 0;
    tx_vring_offset = tx_at;
    rx_buffers_offset = buffers_at;
    rx_buffers_size = buffers_size;
    tx_packet_offset = 0;
    tx_packet_size = 0;
    tx_buffers_offset = 0;
    tx_buffers_size = 0;
    tx_buffer_size = 0;
    total_size = total;
  })

-- The overload for a pool of buffers to transmit.
unfoldable pub compute_dma_layout_pools : ℕ → ℕ → ℕ → ℕ → ℕ → ℕ → ℕ → ℕ → Result DmaLayout
compute_dma_layout_pools page rx_queue_size tx_queue_size align rx_buffers tx_buffers rx_size
      tx_size =
    do
      throw_if (rx_buffers == 0) rx_buffers_zero
      throw_if (ltb rx_queue_size rx_buffers) rx_buffers_exceed_queue
      throw_if (tx_buffers == 0) tx_buffers_zero
      throw_if (ltb tx_queue_size tx_buffers) tx_buffers_exceed_queue
      throw_if (rx_size == 0) rx_buffer_size_zero
      throw_if (tx_size == 0) tx_buffer_size_zero
      rx ← compute_vring_layout rx_queue_size align
      tx ← compute_vring_layout tx_queue_size align
      tx_at ← round_up_to_page page rx.total_size
      buffers_at ← page_after page tx_at tx.total_size
      buffers_size ← checked_mul rx_buffers rx_size
      tx_buffers_at ← page_after page buffers_at buffers_size
      tx_buffers_size ← checked_mul tx_buffers tx_size
      total ← page_after page tx_buffers_at tx_buffers_size
      ok (record {
        rx_vring = rx;
        tx_vring = tx;
        rx_vring_offset = 0;
        tx_vring_offset = tx_at;
        rx_buffers_offset = buffers_at;
        rx_buffers_size = buffers_size;
        tx_packet_offset = tx_buffers_at;
        tx_packet_size = tx_size;
        tx_buffers_offset = tx_buffers_at;
        tx_buffers_size = tx_buffers_size;
        tx_buffer_size = tx_size;
        total_size = total;
      })
