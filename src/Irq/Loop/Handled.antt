-- ===== src/Irq/Loop/Handled.antt =====
-- A round leaves no element of the used ring behind.
use advcpp.Prelude.{ℕ, suc, ◌+◌, ◌≤◌, ◌≡◌, ◌⊎◌, List, [], ◌∷◌, Option, none, some, ◌%◌, u16, u32}
use advcpp.Receive.{ReceivedPacket, read_used_idx, read_rx_used_packet}
use advcpp.Echo.{Setup, Echo, Device, Turn, next, stop, Notify, rx_notify, tx_notify}
use advcpp.Irq.Loop.{looked, new_rx}

-- How many descriptors were given back.
abbrev pub given_back : List Notify → ℕ
given_back [] = 0
given_back (rx_notify ∷ ns) = suc (given_back ns)
given_back (tx_notify ∷ ns) = given_back ns

abbrev back : Echo → ℕ
back c = given_back c.notified

-- The counters of what was received.
record IsSame (c c' : Echo) : Type 0 where
  pub received : c'.received_rx ≡ c.received_rx
  pub skipped : c'.skipped_rx ≡ c.skipped_rx
  pub notified : c'.notified ≡ c.notified
  pub last : c'.last_rx_used_idx ≡ c.last_rx_used_idx

abbrev state_of : Turn → Echo
state_of (next c) = c
state_of (stop c) = c

-- One element was received and given back, or skipped; and the loop stops only where enough was
-- sent.
abbrev IsReceived : Echo → Echo → Type 0
IsReceived c c' =
    (c'.received_rx ≡ u32 (c.received_rx + 1))
    × (c'.skipped_rx ≡ c.skipped_rx)
    × (back c' ≡ back c + 1)
    × (c'.last_rx_used_idx ≡ c.last_rx_used_idx)

abbrev IsSkipped : Echo → Echo → Type 0
IsSkipped c c' =
    (c'.received_rx ≡ c.received_rx)
    × (c'.skipped_rx ≡ u32 (c.skipped_rx + 1))
    × (back c ≤ back c')
    × (c'.last_rx_used_idx ≡ c.last_rx_used_idx)

abbrev IsStop : Setup → Turn → Type 0
IsStop s (next c) = Unit {0}
IsStop s (stop c) = s.max_packets ≤ c.echoed_tx

-- The frame that an element of the used ring reports, if it is one.
abbrev frame_at : Setup → ℕ → Echo → Option ReceivedPacket
frame_at s slot c =
    read_rx_used_packet c.memory s.rx_queue_base s.layout slot s.rx_buffers s.rx_buffer_size
      s.match_ethertype

-- The element `slot` was received where it is a frame, and otherwise skipped.
abbrev IsElement : Setup → ℕ → Echo → Echo → Type 0
IsElement s slot c c' =
    ((p : ReceivedPacket) × (frame_at s slot c ≡ some p) × IsReceived c c')
    ⊎ ((frame_at s slot c ≡ none) × IsSkipped c c')

abbrev IsOne : Setup → ℕ → Echo → Turn → Type 0
IsOne s slot c t = IsElement s slot c (state_of t) × IsStop s t

-- The place of the element number `i` behind `start` in the ring.
abbrev pub place : Setup → ℕ → ℕ → ℕ
place s start i = u16 ((start + i) % s.layout.rx_vring.queue_size)

-- The elements from number `i` on were handled one after the other, each of them at its place
-- behind `start` in the ring; all of them, unless one was the last that was to be answered.
pub data Handled (s : Setup) (start : ℕ) : ℕ → ℕ → Echo → Echo → Type 0 where
  all : {i : ℕ} {c : Echo} → Handled s start i 0 c c
  enough :
      {i left : ℕ} {c c' : Echo}
      → IsElement s (place s start i) c c'
      → s.max_packets ≤ c'.echoed_tx
      → Handled s start i (suc left) c c'
  one_more :
      {i left : ℕ} {c d c' : Echo}
      → IsElement s (place s start i) c d
      → Handled s start (i + 1) left d c'
      → Handled s start i (suc left) c c'

module _ (device : Device) (s : Setup) where
  -- Each element from `i` on was received or skipped, unless enough was sent.
  abbrev AreHandled : ℕ → Echo → Echo → Type 0
  AreHandled left c c' =
      ((c'.received_rx + c'.skipped_rx ≡ c.received_rx + c.skipped_rx + left)
        ⊎ (s.max_packets ≤ c'.echoed_tx))
      × (back c + c'.received_rx ≤ back c' + c.received_rx)

  -- What a round does: it handles what it finds at its look, and remembers how far it has looked.
  abbrev pub IsRound : Echo → Echo → Type 0
  IsRound c c' =
      let d = looked device s c in
      let n = new_rx s d in
      (after : Echo) × (c' ≡ record after {
        last_rx_used_idx = read_used_idx d.memory s.rx_queue_base s.layout.rx_vring;
      })
      × Handled s d.last_rx_used_idx 0 n d after
      × ((c'.received_rx + c'.skipped_rx ≡ c.received_rx + c.skipped_rx + n)
          ⊎ (s.max_packets ≤ c'.echoed_tx))
      × (given_back c.notified + c'.received_rx ≤ given_back c'.notified + c.received_rx)
