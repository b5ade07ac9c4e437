-- ===== src/Dma/Areas.antt =====
-- The areas of a DMA layout stand one behind the other: none overlaps another, and each of them
-- starts on a page.
use advcpp.Prelude.{
  ℕ, ◌+◌, ◌*◌, ◌%◌, ◌≤◌, ◌<◌, ◌≡◌, List, [], ◌∷◌, ◌++◌, arith, u16_max, size_max, ok,
}
use native.Mathlib.Nat.{zero-mod}
use advcpp.Sizes.{round_up_to_page, checked_mul}
use advcpp.Sizes.Laws.{round_up_to_page-ok, checked_mul_iff}
use advcpp.Dma.Pages.{page_after, Stacked, page_after-ok}
use advcpp.Vring.{compute_vring_layout}
use advcpp.Vring.Layout.{IsSplit, compute_vring_layout-IsSplit}
use advcpp.Dma.{
  DmaLayout, compute_dma_layout_packet, compute_dma_layout_rx, compute_dma_layout_pools,
}

abbrev pub areas : DmaLayout → List (ℕ × ℕ)
areas l =
    (l.rx_vring_offset, l.rx_vring.total_size)
    ∷ (l.tx_vring_offset, l.tx_vring.total_size)
    ∷ (l.rx_buffers_offset, l.rx_buffers_size)
    ∷ []

-- The calls that every overload makes, up to the receive buffers, with what they returned.
record Front (page rxq txq align buffers size : ℕ) (l : DmaLayout) : Type 0 where
  count : (0 < buffers) × (buffers ≤ rxq)
  rx : compute_vring_layout rxq align ≡ ok l.rx_vring
  tx : compute_vring_layout txq align ≡ ok l.tx_vring
  rx_at : l.rx_vring_offset ≡ 0
  tx_at : round_up_to_page page l.rx_vring.total_size ≡ ok l.tx_vring_offset
  buffers_at : page_after page l.tx_vring_offset l.tx_vring.total_size ≡ ok l.rx_buffers_offset
  bytes : checked_mul buffers size ≡ ok l.rx_buffers_size

rx-Front :
    (page rxq txq align buffers size : ℕ) {l : DmaLayout}
    → compute_dma_layout_rx page rxq txq align buffers size ≡ ok l
    → Front page rxq txq align buffers size l
      × (page_after page l.rx_buffers_offset l.rx_buffers_size ≡ ok l.total_size)
unfolding compute_dma_layout_rx
rx-Front page rxq txq align buffers size h = ground arith

packet-Front :
    (page rxq txq align buffers size tx : ℕ) {l : DmaLayout}
    → compute_dma_layout_packet page rxq txq align buffers size tx ≡ ok l
    → Front page rxq txq align buffers size l
      × (page_after page l.rx_buffers_offset l.rx_buffers_size ≡ ok l.tx_packet_offset)
      × (page_after page l.tx_packet_offset l.tx_packet_size ≡ ok l.total_size)
      × (l.tx_packet_size ≡ tx)
unfolding compute_dma_layout_packet
packet-Front page rxq txq align buffers size tx h = ground arith

pools-Front :
    (page rxq txq align buffers tx_buffers size tx : ℕ) {l : DmaLayout}
    → compute_dma_layout_pools page rxq txq align buffers tx_buffers size tx ≡ ok l
    → Front page rxq txq align buffers size l
      × (page_after page l.rx_buffers_offset l.rx_buffers_size ≡ ok l.tx_buffers_offset)
      × (checked_mul tx_buffers tx ≡ ok l.tx_buffers_size)
      × (page_after page l.tx_buffers_offset l.tx_buffers_size ≡ ok l.total_size)
      × (l.tx_buffer_size ≡ tx)
      × (tx_buffers ≤ txq)
unfolding compute_dma_layout_pools
pools-Front page rxq txq align buffers tx_buffers size tx h = ground arith

-- What every overload guarantees: both queues are split layouts of their sizes, and the receive
-- area holds every buffer.
pub record IsPlaced (rxq txq align buffers size : ℕ) (l : DmaLayout) : Type 0 where
  pub rx : IsSplit rxq align l.rx_vring
  pub tx : IsSplit txq align l.tx_vring
  pub count : (0 < buffers) × (buffers ≤ rxq)
  pub bytes : l.rx_buffers_size ≡ buffers * size
  pub bytes_fit : l.rx_buffers_size ≤ size_max

module _ (page rxq txq align buffers size : ℕ) (hp : page ≤ size_max) (hr : rxq ≤ u16_max)
    (ht : txq ≤ u16_max) (ha : align ≤ size_max) where
  Front-IsPlaced :
      {l : DmaLayout}
      → Front page rxq txq align buffers size l
      → IsPlaced rxq txq align buffers size l
  Front-IsPlaced {l} f =
      let (bytes, fit) = (checked_mul_iff buffers size l.rx_buffers_size).0 f.bytes in
      record {
        rx = compute_vring_layout-IsSplit rxq align hr ha f.rx;
        tx = compute_vring_layout-IsSplit txq align ht ha f.tx;
        count = f.count;
        bytes = bytes;
        bytes_fit = omega arith;
      }

  Front-Stacked :
      {l : DmaLayout} (rest : List (ℕ × ℕ)) (total : ℕ)
      → Front page rxq txq align buffers size l
      → Stacked page (l.rx_buffers_offset + l.rx_buffers_size) rest total
      → Stacked page 0 (areas l ++ rest) total
  Front-Stacked {l} rest total f s =
      let v = Front-IsPlaced f in
      let (_, tx_at) = round_up_to_page-ok page l.rx_vring.total_size hp f.tx_at in
      let (buffers_page, after_tx, _) =
        page_after-ok page l.tx_vring_offset l.tx_vring.total_size hp v.tx.fits f.buffers_at in
      let start : 0 % page ≡ 0 = zero-mod page in ground (arith, tx_at.above, tx_at.multiple)

  -- The receive-only layout: both queues and the receive buffers, page-aligned, in order, disjoint,
  -- inside the mapping.
  pub compute_dma_layout_rx-Stacked :
      {l : DmaLayout}
      → compute_dma_layout_rx page rxq txq align buffers size ≡ ok l
      → IsPlaced rxq txq align buffers size l × Stacked page 0 (areas l) l.total_size
  compute_dma_layout_rx-Stacked {l} h =
      let (f, end) = rx-Front page rxq txq align buffers size h in
      let v = Front-IsPlaced f in
      let (_, room, _) =
        page_after-ok page l.rx_buffers_offset l.rx_buffers_size hp v.bytes_fit end in
      (v, Front-Stacked [] l.total_size f room)

  -- The layout with one packet to transmit, which lies behind the receive buffers.
  pub compute_dma_layout_packet-Stacked :
      (tx : ℕ) {l : DmaLayout}
      → tx ≤ size_max
      → compute_dma_layout_packet page rxq txq align buffers size tx ≡ ok l
      → IsPlaced rxq txq align buffers size l
        × Stacked page 0 (areas l ++ (l.tx_packet_offset, tx) ∷ []) l.total_size
  compute_dma_layout_packet-Stacked tx {l} hx h =
      let (f, at, end, e) = packet-Front page rxq txq align buffers size tx h in
      let v = Front-IsPlaced f in
      let (aligned, room, _) =
        page_after-ok page l.rx_buffers_offset l.rx_buffers_size hp v.bytes_fit at in
      let (_, last, _) =
        page_after-ok page l.tx_packet_offset l.tx_packet_size hp (omega arith) end in
      (v, Front-Stacked ((l.tx_packet_offset, tx) ∷ []) l.total_size f (omega arith))

  -- In a returned layout, both queues, the receive buffers and a pool of buffers to transmit, as
  -- large as its buffers together and no more of them than the queue has slots, are page-aligned, in
  -- order, disjoint and inside the mapping.
  pub compute_dma_layout_pools-Stacked :
      (tx_buffers tx : ℕ) {l : DmaLayout}
      → compute_dma_layout_pools page rxq txq align buffers tx_buffers size tx ≡ ok l
      → IsPlaced rxq txq align buffers size l
        × (tx_buffers ≤ txq)
        × Stacked page 0 (areas l ++ (l.tx_buffers_offset, tx_buffers * tx) ∷ []) l.total_size
  compute_dma_layout_pools-Stacked tx_buffers tx {l} h =
      let (f, at, mul, end, e, n) = pools-Front page rxq txq align buffers tx_buffers size tx h in
      let v = Front-IsPlaced f in
      let (bytes, fit) = (checked_mul_iff tx_buffers tx l.tx_buffers_size).0 mul in
      let (aligned, room, _) =
        page_after-ok page l.rx_buffers_offset l.rx_buffers_size hp v.bytes_fit at in
      let (_, last, _) =
        page_after-ok page l.tx_buffers_offset l.tx_buffers_size hp (omega arith) end in
      (
        v,
        n,
        Front-Stacked ((l.tx_buffers_offset, tx_buffers * tx) ∷ []) l.total_size f (omega arith),
      )
