-- ===== src/Receive.antt =====
-- The device's answers in userspace_drivers/virtio_net_vfio.hpp: the used ring, and the packets
-- that it reports. Ids and lengths in the used ring are written by the device and may be anything.
pub mod Safety
pub mod Scan
mod Tests
use advcpp.Prelude.{
  ℕ, zero, suc, ◌+◌, ◌-◌, ◌*◌, ◌%◌, Bool, true, not, Option, none, some, List, [], ◌∷◌, ltb, leb,
  ◌==◌, if◌then◌else◌, u16, u64,
}
use advcpp.Memory.{Memory, read_le}
use advcpp.Dma.{DmaLayout}
use advcpp.Packet.{read_be16_from_bytes, net_header_size, ethernet_header_size}
use advcpp.Ring.{vring_used_idx, vring_used_elems}
use advcpp.Vring.{VringLayout, VringUsedElem}

unfoldable pub read_used_idx : Memory → ℕ → VringLayout → ℕ
read_used_idx m base layout = read_le 2 (vring_used_idx base layout) m

-- The difference of two 16-bit indices, with its wrap-around.
unfoldable pub used_delta : ℕ → ℕ → ℕ
used_delta before after = u16 (after + 65536 - before)

unfoldable pub read_used_elem : Memory → ℕ → VringLayout → ℕ → VringUsedElem
read_used_elem m base layout slot = record {
  id = read_le 4 (vring_used_elems base layout slot) m;
  len = read_le 4 (vring_used_elems base layout slot + 4) m;
}

-- `buffer` is the offset of the buffer in the DMA memory.
pub record ReceivedPacket : Type 0 where
  pub used_slot : ℕ
  pub desc_id : ℕ
  pub used_len : ℕ
  pub ethertype : ℕ
  pub buffer : ℕ

abbrev matches : Option ℕ → ℕ → Bool
matches none ethertype = true
matches (some wanted) ethertype = ethertype == wanted

unfoldable pub read_rx_used_packet :
    Memory → ℕ → DmaLayout → ℕ → ℕ → ℕ → Option ℕ → Option ReceivedPacket
unfolding read_used_elem
read_rx_used_packet m base layout slot rx_buffers rx_buffer_size match_ethertype =
    let elem = read_used_elem m base layout.rx_vring slot in
    let buffer = layout.rx_buffers_offset + u64 (elem.id * rx_buffer_size) in
    let ethertype = read_be16_from_bytes m (buffer + net_header_size + 12) in
    if leb rx_buffers elem.id
    then none
    else if ltb rx_buffer_size elem.len
    then none
    else if ltb elem.len (net_header_size + ethernet_header_size)
    then none
    else if not (matches match_ethertype ethertype)
    then none
    else some (record {
      used_slot = slot;
      desc_id = elem.id;
      used_len = elem.len;
      ethertype = ethertype;
      buffer = buffer;
    })

-- The slot of the used index `scan_idx + i`: the sum is an `int`, so only its remainder is taken.
abbrev pub used_slot_at : VringLayout → ℕ → ℕ → ℕ
used_slot_at layout scan_idx i = u16 ((scan_idx + i) % layout.queue_size)

-- The inner loop from `i`, with `left` entries to look at.
unfoldable pub scan_used :
    Memory → ℕ → DmaLayout → ℕ → ℕ → ℕ → Option ℕ → ℕ → ℕ → Option ReceivedPacket
scan_used m base layout scan_idx buffers size wanted i zero = none
scan_used m base layout scan_idx buffers size wanted i (suc left) =
    let rest = scan_used m base layout scan_idx buffers size wanted (i + 1) left in
    let slot = used_slot_at layout.rx_vring scan_idx i in
    elim (read_rx_used_packet m base layout slot buffers size wanted) [
      | some packet ↦ some packet
      | none ↦ rest
    ]

-- The outer loop: each round sees the memory as it is then.
unfoldable pub scan_rounds :
    List Memory → ℕ → DmaLayout → ℕ → ℕ → ℕ → Option ℕ → Option ReceivedPacket
unfolding scan_used
scan_rounds [] base layout scan_idx buffers size wanted = none
scan_rounds (m ∷ later) base layout scan_idx buffers size wanted =
    let current = read_used_idx m base layout.rx_vring in
    let rest = scan_rounds later base layout current buffers size wanted in
    elim (scan_used m base layout scan_idx buffers size wanted 0 (used_delta scan_idx current)) [
      | some packet ↦ some packet
      | none ↦ rest
    ]

-- `m` is the memory at the first round, `later` that at each further round before the deadline.
unfoldable pub wait_for_matching_rx_packet :
    Memory → List Memory → ℕ → DmaLayout → ℕ → ℕ → ℕ → Option ℕ → ℕ → Option ReceivedPacket
unfolding scan_rounds
wait_for_matching_rx_packet m later base layout base_idx buffers size wanted wait_ms =
    scan_rounds (m ∷ (if wait_ms == 0 then [] else later)) base layout base_idx buffers size wanted
