-- ===== src/Ring/Publish.antt =====
-- The descriptor table as the device sees it after a publication.
use advcpp.Prelude.{ℕ, ◌+◌, ◌≤◌, ◌≡◌, ◌⊎◌, List, [], arith, u16_max, u32_max, size_max}
use advcpp.Memory.{Memory, Effect, write_le, perform}
use advcpp.Memory.Words.{read_le-write_le, read_le-write_ne, Within, read_le-perform}
use advcpp.Vring.{VringDesc, VringLayout}
use advcpp.Vring.Layout.{IsSplit}
use advcpp.Ring.{vring_descs, vring_avail_ring, put_desc, read_desc, rx_desc, publish_slots}

-- A descriptor whose fields fit their words.
abbrev pub Fits : VringDesc → Type 0
Fits d = (d.addr ≤ size_max) × (d.len ≤ u32_max) × (d.flags ≤ u16_max) × (d.next ≤ u16_max)

module _ (base : ℕ) (l : VringLayout) where
  abbrev desc_effects : ℕ → VringDesc → List Effect
  desc_effects i d = put_desc base l i d []

  pub read_desc-put_desc :
      (i : ℕ) (d : VringDesc) (m : Memory)
      → Fits d
      → read_desc (perform (desc_effects i d) m) base l i ≡ d
  unfolding read_desc perform
  read_desc-put_desc i d m fits =
      let at = vring_descs base l i in
      let m1 = write_le 8 at d.addr m in
      let m2 = write_le 4 (at + 8) d.len m1 in
      let m3 = write_le 2 (at + 12) d.flags m2 in
      ground (
        arith,
        read_le-write_ne 8 at 2 (at + 14) d.next m3 (omega arith),
        read_le-write_ne 8 at 2 (at + 12) d.flags m2 (omega arith),
        read_le-write_ne 8 at 4 (at + 8) d.len m1 (omega arith),
        read_le-write_le 8 at d.addr m,
        read_le-write_ne 4 (at + 8) 2 (at + 14) d.next m3 (omega arith),
        read_le-write_ne 4 (at + 8) 2 (at + 12) d.flags m2 (omega arith),
        read_le-write_le 4 (at + 8) d.len m1,
        read_le-write_ne 2 (at + 12) 2 (at + 14) d.next m3 (omega arith),
        read_le-write_le 2 (at + 12) d.flags m2,
        read_le-write_le 2 (at + 14) d.next m3,
      )

  -- Effects elsewhere leave a descriptor as it is.
  pub read_desc-perform :
      (i lo hi : ℕ) (es : List Effect) (m : Memory)
      → Within lo hi es
      → (vring_descs base l i + 16 ≤ lo) ⊎ (hi ≤ vring_descs base l i)
      → read_desc (perform es m) base l i ≡ read_desc m base l i
  unfolding read_desc
  read_desc-perform i lo hi es m w h =
      let at = vring_descs base l i in
      ground (
        arith,
        read_le-perform 8 at lo hi es m w (omega arith),
        read_le-perform 4 (at + 8) lo hi es m w (omega arith),
        read_le-perform 2 (at + 12) lo hi es m w (omega arith),
        read_le-perform 2 (at + 14) lo hi es m w (omega arith),
      )

module _ (base : ℕ) (l : VringLayout) (q align : ℕ) (split : IsSplit q align l)
    (bound : q ≤ u16_max) (iova size : ℕ) (hs : size ≤ u32_max) where
  -- One round of the loop.
  one_slot : Memory → ℕ → Memory
  one_slot m i =
      write_le 2 (vring_avail_ring base l i) i
        (perform (put_desc base l i (rx_desc iova size i) []) m)

  -- The rounds from `i` on: what they fill, and what they leave.
  abbrev filled : ℕ → ℕ → Memory → Memory
  filled i left m = perform (publish_slots base l iova size i left) m
