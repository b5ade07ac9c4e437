-- ===== src/Ring.antt =====
-- The driver's side of a queue in userspace_drivers/virtio_net_vfio.hpp: where its parts stand in
-- the DMA buffer, and how buffers are made available to the device. A queue's base is its offset
-- in the buffer.
pub mod Publish
pub mod Recycle
pub mod Inside
mod Tests
use advcpp.Prelude.{
  ℕ, zero, suc, ◌+◌, ◌*◌, ◌%◌, List, [], ◌∷◌, ◌++◌, ltb, u16, u32, u64, u32_max, Result, ok, ◌>>=◌,
  ◌>>◌, throw_if,
}
use advcpp.Prelude.{desc_len_too_large}
use advcpp.Memory.{Memory, Effect, put, fence, read_le}
use advcpp.Vring.{VringDesc, VringLayout, vring_desc_f_write}

-- The address of descriptor `i`.
abbrev pub vring_descs : ℕ → VringLayout → ℕ → ℕ
vring_descs base layout i = base + layout.desc_offset + 16 * i

-- The address of slot `i` of the available ring.
abbrev pub vring_avail_ring : ℕ → VringLayout → ℕ → ℕ
vring_avail_ring base layout i = base + layout.avail_offset + 4 + 2 * i

abbrev pub vring_avail_idx : ℕ → VringLayout → ℕ
vring_avail_idx base layout = base + layout.avail_offset + 2

abbrev pub vring_used_idx : ℕ → VringLayout → ℕ
vring_used_idx base layout = base + layout.used_offset + 2

-- The address of element `i` of the used ring.
abbrev pub vring_used_elems : ℕ → VringLayout → ℕ → ℕ
vring_used_elems base layout i = base + layout.used_offset + 4 + 8 * i

-- `desc[i] = {addr, len, flags, next}`, field by field.
abbrev pub put_desc : ℕ → VringLayout → ℕ → VringDesc → List Effect → List Effect
put_desc base layout i d rest =
    let at = vring_descs base layout i in
    put 8 at d.addr ∷ put 4 (at + 8) d.len ∷ put 2 (at + 12) d.flags ∷ put 2 (at + 14) d.next ∷ rest

-- What the device reads there.
pub read_desc : Memory → ℕ → VringLayout → ℕ → VringDesc
read_desc m base layout i =
    let at = vring_descs base layout i in
    record {
      addr = read_le 8 at m;
      len = read_le 4 (at + 8) m;
      flags = read_le 2 (at + 12) m;
      next = read_le 2 (at + 14) m;
    }

abbrev pub rx_desc : ℕ → ℕ → ℕ → VringDesc
rx_desc iova size i = record {
  addr = u64 (iova + u64 (i * size));
  len = u32 size;
  flags = vring_desc_f_write;
  next = 0;
}

-- The loop from slot `i`, with `left` buffers to publish.
pub publish_slots : ℕ → VringLayout → ℕ → ℕ → ℕ → ℕ → List Effect
publish_slots base layout iova size i zero = []
publish_slots base layout iova size i (suc left) =
    put_desc base layout i (rx_desc iova size i)
      (put 2 (vring_avail_ring base layout i) i ∷ publish_slots base layout iova size (i + 1) left)

unfoldable pub publish_rx_buffers : ℕ → VringLayout → ℕ → ℕ → ℕ → Result (List Effect)
publish_rx_buffers base layout iova buffers size = do
  throw_if (ltb u32_max size) desc_len_too_large
  ok (
      publish_slots base layout iova size 0 buffers
      ++ fence ∷ put 2 (vring_avail_idx base layout) buffers ∷ fence ∷ [])

unfoldable pub recycle_rx_buffer : Memory → ℕ → VringLayout → ℕ → List Effect
recycle_rx_buffer m base layout desc_id =
    let avail_idx = read_le 2 (vring_avail_idx base layout) m in
    put 2 (vring_avail_ring base layout (avail_idx % layout.queue_size)) desc_id
    ∷ fence
    ∷ put 2 (vring_avail_idx base layout) (u16 (avail_idx + 1))
    ∷ fence
    ∷ []

-- The overload for the first packet of an empty queue.
pub publish_first_tx_packet : ℕ → VringLayout → ℕ → ℕ → Result (List Effect)
publish_first_tx_packet base layout iova size = do
  throw_if (ltb u32_max size) desc_len_too_large
  ok (
      put_desc base layout 0 (record { addr = iova; len = u32 size; flags = 0; next = 0 })
        (put 2 (vring_avail_ring base layout 0) 0
          ∷ fence
          ∷ put 2 (vring_avail_idx base layout) 1
          ∷ fence
          ∷ []))

unfoldable pub publish_tx_packet : Memory → ℕ → VringLayout → ℕ → ℕ → ℕ → Result (List Effect)
publish_tx_packet m base layout desc_id iova size = do
  throw_if (ltb u32_max size) desc_len_too_large
  let avail_idx = read_le 2 (vring_avail_idx base layout) m
  ok (
      put_desc base layout desc_id (record { addr = iova; len = u32 size; flags = 0; next = 0 })
        (put 2 (vring_avail_ring base layout (avail_idx % layout.queue_size)) desc_id
          ∷ fence
          ∷ put 2 (vring_avail_idx base layout) (u16 (avail_idx + 1))
          ∷ fence
          ∷ []))
