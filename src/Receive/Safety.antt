-- ===== src/Receive/Safety.antt =====
-- A packet is taken from the used ring only where it lies in its own receive buffer, whatever id
-- and length the device wrote.
use advcpp.Prelude.{
  ℕ, zero, suc, ◌+◌, ◌*◌, ◌≤◌, ◌<◌, ◌≡◌, inl, inr, Option, some, List, [], ◌∷◌, arith, ◌==◌,
  if◌then◌else◌, Option-cases, u64, size_max,
}
use advcpp.Memory.{Memory}
use advcpp.Dma.{DmaLayout}
use advcpp.Receive.{
  ReceivedPacket, read_used_idx, used_delta, read_rx_used_packet, scan_used, scan_rounds,
  wait_for_matching_rx_packet, used_slot_at,
}

-- The packet's buffer is that of its descriptor, the packet fills at most that buffer and has both
-- headers, and all of it lies in the receive area.
pub record IsInside (l : DmaLayout) (buffers size : ℕ) (p : ReceivedPacket) : Type 0 where
  pub posted : p.desc_id < buffers
  pub header : 26 ≤ p.used_len
  pub fits : p.used_len ≤ size
  pub own : p.buffer ≡ l.rx_buffers_offset + p.desc_id * size
  pub inside : p.buffer + p.used_len ≤ l.rx_buffers_offset + l.rx_buffers_size

pub buffer_end : (id buffers size : ℕ) → id < buffers → id * size + size ≤ buffers * size
buffer_end id buffers size h = grind arith

module _ (l : DmaLayout) (buffers size : ℕ) (bytes : l.rx_buffers_size ≡ buffers * size)
    (area : l.rx_buffers_size ≤ size_max) where
  -- Each packet that `read_rx_used_packet` returns lies inside its own posted receive buffer and
  -- has both headers, for every content of the used ring.
  pub read_rx_used_packet-IsInside :
      (m : Memory) (base slot : ℕ) (wanted : Option ℕ) {p : ReceivedPacket}
      → read_rx_used_packet m base l slot buffers size wanted ≡ some p
      → IsInside l buffers size p
  unfolding read_rx_used_packet
  read_rx_used_packet-IsInside m base slot wanted {p} e =
      let posted : p.desc_id < buffers = ground arith in
      let at : p.buffer ≡ l.rx_buffers_offset + u64 (p.desc_id * size) = ground arith in
      let end = buffer_end p.desc_id buffers size posted in
      let fits : p.used_len ≤ size = ground arith in
      record {
        posted = posted;
        header = ground arith;
        fits = fits;
        own = omega arith;
        inside = omega arith;
      }

  scan_used-IsInside :
      (m : Memory) (base idx i left : ℕ) (wanted : Option ℕ) {p : ReceivedPacket}
      → scan_used m base l idx buffers size wanted i left ≡ some p
      → IsInside l buffers size p
  unfolding scan_used
  scan_used-IsInside m base idx i zero wanted e = cc
  scan_used-IsInside m base idx i (suc left) wanted {p} e =
      elim (Option-cases
        (read_rx_used_packet m base l (used_slot_at l.rx_vring idx i) buffers size wanted)) [
          | inl miss ↦ scan_used-IsInside m base idx (i + 1) left wanted (ground arith)
          | inr (r, hit) ↦
              read_rx_used_packet-IsInside m base (used_slot_at l.rx_vring idx i) wanted
                (ground arith)
        ]

  scan_rounds-IsInside :
      (ms : List Memory) (base idx : ℕ) (wanted : Option ℕ) {p : ReceivedPacket}
      → scan_rounds ms base l idx buffers size wanted ≡ some p
      → IsInside l buffers size p
  unfolding scan_rounds
  scan_rounds-IsInside [] base idx wanted e = cc
  scan_rounds-IsInside (m ∷ ms) base idx wanted {p} e =
      let current = read_used_idx m base l.rx_vring in
      elim (Option-cases (scan_used m base l idx buffers size wanted 0 (used_delta idx current))) [
        | inl miss ↦ scan_rounds-IsInside ms base current wanted (ground arith)
        | inr (r, hit) ↦
            scan_used-IsInside m base idx 0 (used_delta idx current) wanted (ground arith)
      ]

  -- So does each packet that `wait_for_matching_rx_packet` returns, however the device changes the
  -- memory between its rounds.
  pub wait_for_matching_rx_packet-IsInside :
      (m : Memory) (later : List Memory) (base idx : ℕ) (wanted : Option ℕ) (wait_ms : ℕ)
      {p : ReceivedPacket}
      → wait_for_matching_rx_packet m later base l idx buffers size wanted wait_ms ≡ some p
      → IsInside l buffers size p
  unfolding wait_for_matching_rx_packet
  wait_for_matching_rx_packet-IsInside m later base idx wanted wait_ms e =
      scan_rounds-IsInside (m ∷ (if wait_ms == 0 then [] else later)) base idx wanted e
