-- ===== src/Echo.antt =====
-- The echo loop of userspace_drivers/25_virtio_net_echo_loop.cpp, from its first completed
-- set-up on: each received frame is answered from a free transmit buffer, and its descriptor is
-- given back. The device is a parameter: what it has written to the DMA memory when the driver
-- looks at a used index for the `n`-th time. The clock is how many of its readings come before the
-- deadline. The messages that are printed are left out.
pub mod Slots
pub mod Invariant
pub mod Completed
pub mod Ends
pub mod Prepared
pub mod Answer
pub mod Tests
use advcpp.Prelude.{
  ℕ, zero, suc, ◌+◌, ◌-◌, ◌*◌, Bool, true, false, ◌&&◌, ◌||◌, not, Option, none, some, List, [],
  ◌∷◌, length, set, replicate, ltb, leb, ◌==◌, if◌then◌else◌, u16, u32, u64, Result, ok, ◌>>=◌,
  ◌>>◌,
}
use advcpp.Memory.{Memory, perform}
use advcpp.Vring.{VringUsedElem, VringLayout}
use advcpp.Dma.{DmaLayout}
use advcpp.Ring.{recycle_rx_buffer, publish_tx_packet}
use advcpp.Packet.{build_tx_reply_from_rx}
use advcpp.Receive.{
  ReceivedPacket, read_used_idx, used_delta, read_used_elem, read_rx_used_packet, used_slot_at,
}

pub record TxSlot : Type 0 where
  pub in_flight : Bool

-- What the set-up has fixed.
pub record Setup : Type 0 where
  pub rx_queue_base : ℕ
  pub tx_queue_base : ℕ
  pub layout : DmaLayout
  pub tx_buffers_iova : ℕ
  pub reply_src_mac : List ℕ
  pub rx_buffers : ℕ
  pub tx_buffers : ℕ
  pub rx_buffer_size : ℕ
  pub match_ethertype : Option ℕ
  pub run_ms : ℕ
  pub max_packets : ℕ

pub data Notify : Type 0 where
  rx_notify tx_notify : Notify

-- The variables of the loop, the DMA memory, the notifications written (the last one first), how
-- often a used index was read, and how many readings of the clock are left before the deadline.
pub record Echo : Type 0 where
  pub memory : Memory
  pub tx_slots : List TxSlot
  pub last_rx_used_idx : ℕ
  pub last_tx_used_idx : ℕ
  pub received_rx : ℕ
  pub echoed_tx : ℕ
  pub completed_tx : ℕ
  pub skipped_rx : ℕ
  pub notified : List Notify
  pub looks : ℕ
  pub ticks : ℕ

-- What the device has written by the `n`-th look.
abbrev pub Device : Type 0
Device = ℕ → Memory → Memory

abbrev pub look : Device → Echo → Echo
look device c = record c { memory = device c.looks c.memory; looks = c.looks + 1 }

-- One element of the used ring.
unfoldable pub complete_slot : Setup → ℕ → Echo → Echo
unfolding read_used_elem
complete_slot s slot c =
    let elem = read_used_elem c.memory s.tx_queue_base s.layout.tx_vring slot in
    if leb (length c.tx_slots) elem.id then c else record c {
      tx_slots = set c.tx_slots elem.id (record { in_flight = false });
      completed_tx = u32 (c.completed_tx + 1);
    }

-- The loop from `i`, with `left` elements to look at.
unfoldable pub complete_slots : Setup → ℕ → ℕ → Echo → Echo
unfolding complete_slot
complete_slots s i zero c = c
complete_slots s i (suc left) c =
    complete_slots s (i + 1) left
      (complete_slot s (used_slot_at s.layout.tx_vring c.last_tx_used_idx i) c)

unfoldable pub consume_tx_completions : Device → Setup → Echo → Echo
unfolding complete_slots read_used_idx used_delta
consume_tx_completions device s c =
    let c' = look device c in
    let current = read_used_idx c'.memory s.tx_queue_base s.layout.tx_vring in
    let count = used_delta c'.last_tx_used_idx current in
    let c'' = complete_slots s 0 count c' in
    if count == 0 then c' else record c'' { last_tx_used_idx = current }

-- The loop from `i`.
unfoldable pub find_free_from : ℕ → List TxSlot → Option ℕ
find_free_from i [] = none
find_free_from i (slot ∷ slots) =
    if not slot.in_flight then some i else find_free_from (i + 1) slots

unfoldable pub find_free_tx_slot : List TxSlot → Option ℕ
unfolding find_free_from
find_free_tx_slot tx_slots = find_free_from 0 tx_slots

-- The loop that waits for a free slot, until the clock has passed the deadline.
unfoldable pub wait_free_slot : ℕ → Device → Setup → Echo → Option ℕ × Echo
unfolding consume_tx_completions find_free_tx_slot
wait_free_slot zero device s c = (find_free_tx_slot c.tx_slots, record c { ticks = 0 })
wait_free_slot (suc ticks) device s c =
    let rest =
      wait_free_slot ticks device s
        (consume_tx_completions device s (record c { ticks = ticks })) in
    elim (find_free_tx_slot c.tx_slots) [ some slot ↦ (some slot, c) | none ↦ rest ]

unfoldable pub recycle : Setup → ℕ → Echo → Echo
unfolding recycle_rx_buffer perform
recycle s desc_id c = record c {
  memory =
      perform (recycle_rx_buffer c.memory s.rx_queue_base s.layout.rx_vring (u16 desc_id)) c.memory;
  notified = rx_notify ∷ c.notified;
}

-- Whether the loop over the received packets goes on.
pub data Turn : Type 0 where
  next : Echo → Turn
  stop : Echo → Turn

-- The answer from transmit buffer `slot`.
unfoldable pub echo_packet : Setup → ReceivedPacket → ℕ → Echo → Result Turn
unfolding recycle
echo_packet s received slot c = do
  let offset = u64 (slot * s.layout.tx_buffer_size)
  let tx_packet = s.layout.tx_buffers_offset + offset
  let tx_packet_iova = u64 (s.tx_buffers_iova + offset)
  (tx_used_len, built) ←
      build_tx_reply_from_rx tx_packet s.layout.tx_buffer_size received.buffer received.used_len
        s.reply_src_mac c.memory
  stores ← publish_tx_packet built s.tx_queue_base s.layout.tx_vring slot tx_packet_iova tx_used_len
  let sent : Echo = record c {
    memory = perform stores built;
    tx_slots = set c.tx_slots slot (record { in_flight = true });
    echoed_tx = u32 (c.echoed_tx + 1);
    notified = tx_notify ∷ c.notified;
  }
  let given_back = recycle s received.desc_id sent
  ok (if leb s.max_packets given_back.echoed_tx then stop given_back else next given_back)

-- A frame that passes the filter.
unfoldable pub receive_packet : Device → Setup → ReceivedPacket → Echo → Result Turn
unfolding wait_free_slot echo_packet recycle
receive_packet device s received c =
    let (slot, c') =
      wait_free_slot c.ticks device s (record c { received_rx = u32 (c.received_rx + 1) }) in
    elim slot [
      | some free ↦ echo_packet s received free c'
      | none ↦ ok (stop (recycle s received.desc_id c'))
    ]

-- Any other element of the used ring.
unfoldable pub skip_packet : Setup → ℕ → Echo → Echo
unfolding recycle read_used_elem
skip_packet s used_slot c =
    let skipped : Echo = record c { skipped_rx = u32 (c.skipped_rx + 1) } in
    let id = (read_used_elem c.memory s.rx_queue_base s.layout.rx_vring used_slot).id in
    if ltb id s.rx_buffers then recycle s id skipped else skipped

unfoldable pub handle_used : Device → Setup → ℕ → Echo → Result Turn
unfolding receive_packet skip_packet
handle_used device s used_slot c =
    elim (read_rx_used_packet c.memory s.rx_queue_base s.layout used_slot s.rx_buffers
      s.rx_buffer_size s.match_ethertype) [
        | some received ↦ receive_packet device s received c
        | none ↦ ok (next (skip_packet s used_slot c))
      ]

-- The loop over the received elements from `i`.
unfoldable pub handle_all : Device → Setup → ℕ → ℕ → Echo → Result Echo
unfolding handle_used
handle_all device s i zero c = ok c
handle_all device s i (suc left) c = do
  turn ← handle_used device s (used_slot_at s.layout.rx_vring c.last_rx_used_idx i) c
  elim turn [ next c' ↦ handle_all device s (i + 1) left c' | stop c' ↦ ok c' ]

-- The body of the loop.
unfoldable pub echo_round : Device → Setup → Echo → Result Echo
unfolding consume_tx_completions handle_all read_used_idx used_delta
echo_round device s c = do
  let c' = look device (consume_tx_completions device s c)
  let current_rx_used = read_used_idx c'.memory s.rx_queue_base s.layout.rx_vring
  after ← handle_all device s 0 (used_delta c'.last_rx_used_idx current_rx_used) c'
  ok (record after { last_rx_used_idx = current_rx_used })

-- Whether the loop goes on, and the clock that the test has read.
abbrev pub goes_on : Setup → Echo → Bool
goes_on s c = ltb c.echoed_tx s.max_packets && (s.run_ms == 0 || ltb 0 c.ticks)

abbrev pub clock_read : Setup → Echo → Echo
clock_read s c = if s.run_ms == 0 then c else record c { ticks = c.ticks - 1 }

-- The loop, as far as `fuel` rounds: `none` means that the fuel ran out.
unfoldable pub run_rounds : ℕ → Device → Setup → Echo → Result (Option Echo)
unfolding echo_round
run_rounds zero device s c = ok none
run_rounds (suc fuel) device s c =
    let rest = echo_round device s (clock_read s c) >>= λ c'. run_rounds fuel device s c' in
    if goes_on s c then rest else ok (some c)

-- The wait for the transmissions, of `ticks` readings of the clock.
unfoldable pub drain_tx : ℕ → Device → Setup → Echo → Echo
unfolding consume_tx_completions
drain_tx zero device s c = c
drain_tx (suc ticks) device s c =
    let rest = drain_tx ticks device s (consume_tx_completions device s c) in
    if ltb c.completed_tx c.echoed_tx then rest else c

-- The variables before the loop. A deadline at once is one that every reading has passed.
unfoldable pub loop_start : Setup → ℕ → Memory → Echo
unfolding read_used_idx
loop_start s ticks m = record {
  memory = m;
  tx_slots = replicate s.tx_buffers (record { in_flight = false });
  last_rx_used_idx = read_used_idx m s.rx_queue_base s.layout.rx_vring;
  last_tx_used_idx = read_used_idx m s.tx_queue_base s.layout.tx_vring;
  received_rx = 0;
  echoed_tx = 0;
  completed_tx = 0;
  skipped_rx = 0;
  notified = rx_notify ∷ [];
  looks = 0;
  ticks = if s.run_ms == 0 then 0 else ticks;
}

unfoldable pub run_echo_loop : ℕ → ℕ → ℕ → Device → Setup → Memory → Result (Option Echo)
unfolding run_rounds drain_tx loop_start
run_echo_loop fuel ticks drain device s m = do
  ended ← run_rounds fuel device s (loop_start s ticks m)
  elim ended [ some c ↦ ok (some (drain_tx drain device s c)) | none ↦ ok none ]
