-- ===== src/Dma/Control/Areas.antt =====
-- The areas of a layout with a control queue.
use native.Mathlib.Nat.{zero-mod}
use advcpp.Prelude.{
  ℕ, ◌+◌, ◌*◌, ◌%◌, ◌≤◌, ◌<◌, ◌≡◌, ◌↔◌, List, [], ◌∷◌, arith, u64, u16_max, u32_max, size_max, ok,
}
use advcpp.Sizes.{round_up_to_page, checked_mul}
use advcpp.Sizes.Laws.{round_up_to_page-ok, checked_mul_iff, checked_add-eq, checked_mul-eq}
use advcpp.Vring.{compute_vring_layout}
use advcpp.Vring.Layout.{IsSplit, compute_vring_layout-IsSplit}
use advcpp.Dma.Pages.{page_after, Stacked, page_after-ok}
use advcpp.Dma.Control.{CtrlqDmaLayout, compute_ctrlq_dma_layout, mac_table_control_data_size}

-- The calls of `compute_ctrlq_dma_layout`, with what they returned.
record Steps (page rxq txq ctrlq align buffers size bytes : ℕ) (l : CtrlqDmaLayout) : Type 0 where
  count : (0 < buffers) × (buffers ≤ rxq)
  slots : 3 ≤ ctrlq
  payload : (0 < bytes) × (bytes ≤ u32_max) × (l.ctrl_data_size ≡ bytes)
  rx : compute_vring_layout rxq align ≡ ok l.rx_vring
  tx : compute_vring_layout txq align ≡ ok l.tx_vring
  ctrl : compute_vring_layout ctrlq align ≡ ok l.ctrl_vring
  rx_at : l.rx_vring_offset ≡ 0
  tx_at : round_up_to_page page l.rx_vring.total_size ≡ ok l.tx_vring_offset
  ctrl_at : page_after page l.tx_vring_offset l.tx_vring.total_size ≡ ok l.ctrl_vring_offset
  buffers_at : page_after page l.ctrl_vring_offset l.ctrl_vring.total_size ≡ ok l.rx_buffers_offset
  mul : checked_mul buffers size ≡ ok l.rx_buffers_size
  command_at : page_after page l.rx_buffers_offset l.rx_buffers_size ≡ ok l.ctrl_command_offset
  hdr_at : l.ctrl_hdr_offset ≡ l.ctrl_command_offset
  data_at : l.ctrl_data_offset ≡ u64 (l.ctrl_command_offset + 2)
  ack_at : l.ctrl_ack_offset ≡ u64 (l.ctrl_data_offset + bytes)
  total : page_after page l.ctrl_ack_offset 1 ≡ ok l.total_size

steps :
    (page rxq txq ctrlq align buffers size bytes : ℕ) {l : CtrlqDmaLayout}
    → compute_ctrlq_dma_layout page rxq txq ctrlq align buffers size bytes ≡ ok l
    → Steps page rxq txq ctrlq align buffers size bytes l
unfolding compute_ctrlq_dma_layout
steps page rxq txq ctrlq align buffers size bytes h = record {
  count = ground arith;
  slots = ground arith;
  payload = ground arith;
  rx = ground arith;
  tx = ground arith;
  ctrl = ground arith;
  rx_at = ground arith;
  tx_at = ground arith;
  ctrl_at = ground arith;
  buffers_at = ground arith;
  mul = ground arith;
  command_at = ground arith;
  hdr_at = ground arith;
  data_at = ground arith;
  ack_at = ground arith;
  total = ground arith;
}

-- The three queues, the receive buffers and the command.
abbrev pub areas : CtrlqDmaLayout → List (ℕ × ℕ)
areas l =
    (l.rx_vring_offset, l.rx_vring.total_size)
    ∷ (l.tx_vring_offset, l.tx_vring.total_size)
    ∷ (l.ctrl_vring_offset, l.ctrl_vring.total_size)
    ∷ (l.rx_buffers_offset, l.rx_buffers_size)
    ∷ (l.ctrl_command_offset, 2 + l.ctrl_data_size + 1)
    ∷ []

pub record IsPlaced (rxq txq ctrlq align buffers size bytes : ℕ) (l : CtrlqDmaLayout) : Type 0 where
  pub rx : IsSplit rxq align l.rx_vring
  pub tx : IsSplit txq align l.tx_vring
  pub ctrl : IsSplit ctrlq align l.ctrl_vring
  pub slots : 3 ≤ ctrlq
  pub count : (0 < buffers) × (buffers ≤ rxq)
  pub buffer_bytes : l.rx_buffers_size ≡ buffers * size
  pub data_bytes : l.ctrl_data_size ≡ bytes
  pub hdr_at : l.ctrl_hdr_offset ≡ l.ctrl_command_offset
  pub data_at : l.ctrl_data_offset ≡ l.ctrl_command_offset + 2
  pub ack_at : l.ctrl_ack_offset ≡ l.ctrl_command_offset + 2 + bytes

-- Where the end of the command does not wrap, the three queues, the receive buffers and the
-- command area are page-aligned, in order, disjoint and inside the mapping, and header, data and
-- acknowledgement follow one another in the command area.
compute_ctrlq_dma_layout-Stacked :
    (page rxq txq ctrlq align buffers size bytes : ℕ) {l : CtrlqDmaLayout}
    → page ≤ size_max
    → rxq ≤ u16_max
    → txq ≤ u16_max
    → ctrlq ≤ u16_max
    → align ≤ size_max
    → compute_ctrlq_dma_layout page rxq txq ctrlq align buffers size bytes ≡ ok l
    → l.ctrl_command_offset + 2 + bytes ≤ size_max
    → IsPlaced rxq txq ctrlq align buffers size bytes l × Stacked page 0 (areas l) l.total_size
compute_ctrlq_dma_layout-Stacked page rxq txq ctrlq align buffers size bytes {l} hp hr ht hc ha h
      room =
    let s = steps page rxq txq ctrlq align buffers size bytes h in
    let rx = compute_vring_layout-IsSplit rxq align hr ha s.rx in
    let tx = compute_vring_layout-IsSplit txq align ht ha s.tx in
    let ctrl = compute_vring_layout-IsSplit ctrlq align hc ha s.ctrl in
    let (mul, fit) = (checked_mul_iff buffers size l.rx_buffers_size).0 s.mul in
    let (_, t) = round_up_to_page-ok page l.rx_vring.total_size hp s.tx_at in
    let (p1, a1, _) =
      page_after-ok page l.tx_vring_offset l.tx_vring.total_size hp tx.fits s.ctrl_at in
    let (p2, a2, _) =
      page_after-ok page l.ctrl_vring_offset l.ctrl_vring.total_size hp ctrl.fits s.buffers_at in
    let (p3, a3, _) =
      page_after-ok page l.rx_buffers_offset l.rx_buffers_size hp (omega arith) s.command_at in
    let (_, a4, _) = page_after-ok page l.ctrl_ack_offset 1 hp (omega arith) s.total in
    let start : 0 % page ≡ 0 = zero-mod page in
    (
      record {
        rx = rx;
        tx = tx;
        ctrl = ctrl;
        slots = s.slots;
        count = s.count;
        buffer_bytes = mul;
        data_bytes = s.payload.2;
        hdr_at = s.hdr_at;
        data_at = omega (arith, s.data_at);
        ack_at = omega (arith, s.data_at, s.ack_at);
      },
      ground (arith, t.above, t.multiple, s.rx_at, s.data_at, s.ack_at, s.payload),
    )

-- Where the end of the command wraps, a layout that is returned all the same has its
-- acknowledgement byte below the command.
pub compute_ctrlq_dma_layout_wraps :
    (page rxq txq ctrlq align buffers size bytes : ℕ) {l : CtrlqDmaLayout}
    → page ≤ size_max
    → compute_ctrlq_dma_layout page rxq txq ctrlq align buffers size bytes ≡ ok l
    → size_max < l.ctrl_command_offset + 2 + bytes
    → l.ctrl_ack_offset < l.ctrl_command_offset
compute_ctrlq_dma_layout_wraps page rxq txq ctrlq align buffers size bytes {l} hp h wraps =
    let s = steps page rxq txq ctrlq align buffers size bytes h in
    let (mul, fit) = (checked_mul_iff buffers size l.rx_buffers_size).0 s.mul in
    let (_, _, top) =
      page_after-ok page l.rx_buffers_offset l.rx_buffers_size hp (omega arith) s.command_at in
    omega (arith, s.data_at, s.ack_at, s.payload)

-- The size of a MAC table command is that of two counted tables, where it fits.
pub mac_table_control_data_size_iff :
    (u m r : ℕ)
    → (mac_table_control_data_size u m ≡ ok r)
      ↔ ((r ≡ 4 + u * 6 + (4 + m * 6)) × (4 + u * 6 + (4 + m * 6) ≤ size_max))
unfolding mac_table_control_data_size
mac_table_control_data_size_iff u m r = (
  λ h. ground (
    arith,
    checked_mul-eq u 6,
    checked_mul-eq m 6,
    checked_add-eq 4 (u * 6),
    checked_add-eq 4 (m * 6),
    checked_add-eq (4 + u * 6) (4 + m * 6),
  ),
  λ (e, fits). ground (
    arith,
    checked_mul-eq u 6,
    checked_mul-eq m 6,
    checked_add-eq 4 (u * 6),
    checked_add-eq 4 (m * 6),
    checked_add-eq (4 + u * 6) (4 + m * 6),
  ),
)
