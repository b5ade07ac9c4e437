-- ===== src/Ring/Inside.antt =====
-- A queue and the rest of the DMA memory: what is stored for the queue lies in its area, and what
-- the device finds there depends on that area alone.
use native.Mathlib.Nat.{mod-lt}
use advcpp.Prelude.{
  ℕ, zero, suc, ◌+◌, ◌*◌, ◌%◌, ◌≤◌, ◌<◌, ◌≡◌, refl, ap, ◌∙◌, ◌⊎◌, List, [], ◌∷◌, arith, subst, u16,
  u32, ok,
}
use mathlib.Core.Path.{ap₂}
use advcpp.Memory.{Memory, Effect, put, fence, read_le, write_le, perform}
use advcpp.Memory.Words.{Within, byte-outside}
use advcpp.Vring.{VringLayout, VringDesc}
use advcpp.Vring.Layout.{IsSplit}
use advcpp.Ring.{vring_avail_ring, vring_avail_idx, put_desc, recycle_rx_buffer, publish_tx_packet}
use advcpp.Ring.Recycle.{pending}

pub perform-outside :
    (x lo hi : ℕ) (es : List Effect) (m : Memory)
    → Within lo hi es
    → (x < lo) ⊎ (hi ≤ x)
    → perform es m x ≡ m x
unfolding perform
perform-outside x lo hi [] m w h = refl
perform-outside x lo hi (put n a v ∷ es) m w h =
    perform-outside x lo hi es (write_le n a v m) w.2 h ∙ byte-outside x n a v m (omega (arith, w))
perform-outside x lo hi (fence ∷ es) m w h = perform-outside x lo hi es m w h

-- Two memories with the same `size` bytes from `at` on.
abbrev pub Agree : ℕ → ℕ → Memory → Memory → Type 0
Agree at size m m' = (x : ℕ) → at ≤ x → x < at + size → m x ≡ m' x

read_le-ext :
    (k a at size : ℕ) (m m' : Memory)
    → Agree at size m m'
    → at ≤ a
    → a + k ≤ at + size
    → read_le k a m ≡ read_le k a m'
unfolding read_le
read_le-ext zero a at size m m' same lo hi = refl
read_le-ext (suc k) a at size m m' same lo hi =
    ap₂ (λ (x y : ℕ). x + 256 * y) (same a lo (omega arith))
      (read_le-ext k (a + 1) at size m m' same (omega arith) (omega arith))

module _ (base : ℕ) (l : VringLayout) (q align : ℕ) (split : IsSplit q align l) (hq : 0 < q) where
  slot-lt : (i : ℕ) → i % l.queue_size < q
  slot-lt i = omega (arith, mod-lt i hq, ap (λ (t : ℕ). i % t) split.queue)

  pub recycle_rx_buffer-Within :
      (m : Memory) (id : ℕ) → Within base (base + l.total_size) (recycle_rx_buffer m base l id)
  unfolding recycle_rx_buffer
  recycle_rx_buffer-Within m id =
      let below = split.used_at.above in
      omega (arith, slot-lt (read_le 2 (vring_avail_idx base l) m))

  pub publish_tx_packet-Within :
      (m : Memory) (id iova size : ℕ) {es : List Effect}
      → id < q
      → publish_tx_packet m base l id iova size ≡ ok es
      → Within base (base + l.total_size) es
  unfolding publish_tx_packet
  publish_tx_packet-Within m id iova size {es} hid h =
      let at = read_le 2 (vring_avail_idx base l) m in
      let d : VringDesc = record { addr = iova; len = u32 size; flags = 0; next = 0 } in
      let ring = put 2 (vring_avail_ring base l (at % l.queue_size)) id in
      let index = put 2 (vring_avail_idx base l) (u16 (at + 1)) in
      let stores = put_desc base l id d (ring ∷ fence ∷ index ∷ fence ∷ []) in
      let e : stores ≡ es = ground arith in
      subst (λ (es' : List Effect). Within base (base + l.total_size) es') e
        (omega (arith, slot-lt at, split.used_at.above))

  module _ (m m' : Memory) (same : Agree base l.total_size m m') where
    pub pending-ext : (seen n : ℕ) → pending m base l seen n ≡ pending m' base l seen n
    unfolding pending
    pending-ext seen zero = refl
    pending-ext seen (suc n) =
        ap₂ ◌∷◌
          (read_le-ext 2 (vring_avail_ring base l (seen % l.queue_size)) base l.total_size m m' same
            (omega arith) (omega (arith, slot-lt seen, split.used_at.above)))
          (pending-ext (seen + 1) n)

    pub avail_idx-ext : read_le 2 (vring_avail_idx base l) m ≡ read_le 2 (vring_avail_idx base l) m'
    avail_idx-ext =
        read_le-ext 2 (vring_avail_idx base l) base l.total_size m m' same (omega arith)
          (omega (arith, split.used_at.above))
