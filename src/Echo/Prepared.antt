-- ===== src/Echo/Prepared.antt =====
-- The set-up that the echo loop starts from, and where its areas lie to one another.
use advcpp.Prelude.{ℕ, ◌+◌, ◌*◌, ◌≤◌, ◌≡◌, arith, u16_max, size_max, ok, length}
use advcpp.Dma.{DmaLayout, compute_dma_layout_pools}
use advcpp.Dma.Areas.{compute_dma_layout_pools-Stacked}
use advcpp.Vring.Layout.{IsSplit}
use advcpp.Echo.{Setup}
use advcpp.Echo.Ends.{HoldsReplies}

-- What the set-up of the sample has fixed: the layout of the DMA memory is that of
-- `compute_dma_layout`, both queues stand where it says, and no address wraps.
pub record IsPrepared (s : Setup) (page rxq txq align : ℕ) : Type 0 where
  pub computed :
      compute_dma_layout_pools page rxq txq align s.rx_buffers s.tx_buffers s.rx_buffer_size
        s.rx_buffer_size
      ≡ ok s.layout
  pub page_fits : page ≤ size_max
  pub rxq_fits : rxq ≤ u16_max
  pub txq_fits : txq ≤ u16_max
  pub align_fits : align ≤ size_max
  pub rx_at : s.rx_queue_base ≡ s.layout.rx_vring_offset
  pub tx_at : s.tx_queue_base ≡ s.layout.tx_vring_offset
  pub iova_fits : s.tx_buffers_iova + s.tx_buffers * s.rx_buffer_size ≤ size_max
  pub mac : length s.reply_src_mac ≡ 6
  pub holds : HoldsReplies s

-- Where the areas lie to one another.
pub record IsApart (s : Setup) (rxq txq align : ℕ) : Type 0 where
  pub rx : IsSplit rxq align s.layout.rx_vring
  pub tx : IsSplit txq align s.layout.tx_vring
  pub rx_end : s.rx_queue_base + s.layout.rx_vring.total_size ≤ s.tx_queue_base
  pub tx_end : s.tx_queue_base + s.layout.tx_vring.total_size ≤ s.layout.rx_buffers_offset
  pub buffers_end :
      s.layout.rx_buffers_offset + s.rx_buffers * s.rx_buffer_size ≤ s.layout.tx_buffers_offset
  pub count : s.rx_buffers ≤ rxq
  pub tx_count : s.tx_buffers ≤ txq
  pub size : s.layout.tx_buffer_size ≡ s.rx_buffer_size
  pub bytes : s.layout.rx_buffers_size ≡ s.rx_buffers * s.rx_buffer_size

buffer_size :
    (page rxq txq align rx_buffers tx_buffers size tx : ℕ) {l : DmaLayout}
    → compute_dma_layout_pools page rxq txq align rx_buffers tx_buffers size tx ≡ ok l
    → l.tx_buffer_size ≡ tx
unfolding compute_dma_layout_pools
buffer_size page rxq txq align rx_buffers tx_buffers size tx h = ground arith

pub IsPrepared-IsApart :
    (s : Setup) (page rxq txq align : ℕ) → IsPrepared s page rxq txq align → IsApart s rxq txq align
IsPrepared-IsApart s page rxq txq align v =
    let (placed, count, stacked) =
      compute_dma_layout_pools-Stacked page rxq txq align s.rx_buffers s.rx_buffer_size v.page_fits
        v.rxq_fits v.txq_fits v.align_fits s.tx_buffers s.rx_buffer_size v.computed in
    record {
      rx = placed.rx;
      tx = placed.tx;
      rx_end = omega (arith, v.rx_at, v.tx_at, stacked);
      tx_end = omega (arith, v.rx_at, v.tx_at, stacked);
      buffers_end = omega (arith, stacked, placed.bytes);
      count = placed.count.1;
      tx_count = count;
      size =
          buffer_size page rxq txq align s.rx_buffers s.tx_buffers s.rx_buffer_size s.rx_buffer_size
            v.computed;
      bytes = placed.bytes;
    }
