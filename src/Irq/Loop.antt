-- ===== src/Irq/Loop.antt =====
-- The loop of userspace_drivers/26_virtio_net_irq_echo_loop.cpp, which waits for an interrupt where
-- that of sample 25 sleeps, and looks at every element of the used ring also where no transmit
-- buffer is free. What it shares with that loop is taken from Echo. The clock that the loop tests is
-- the number of its readings before the deadline; what `timeout_until` and `poll_irq_events` answer
-- is a parameter, a function of how often a used index was read before.
pub mod Handled
pub mod Ends
mod Tests
use advcpp.Prelude.{
  ℕ, zero, suc, ◌+◌, Bool, true, false, ◌||◌, not, none, some, ltb, leb, ◌==◌, if◌then◌else◌, u32,
  Result, ok, ◌>>=◌,
}
use advcpp.Memory.{Memory}
use advcpp.Receive.{ReceivedPacket, read_used_idx, used_delta, read_rx_used_packet, used_slot_at}
use advcpp.Echo.{
  Setup, Echo, Device, Turn, next, stop, look, complete_slots, find_free_tx_slot, recycle,
  echo_packet, skip_packet, loop_start,
}

-- `consume_tx_completions`, and whether there were any.
unfoldable pub irq_consume : Device → Setup → Echo → Echo × Bool
unfolding complete_slots read_used_idx used_delta
irq_consume device s c =
    let c' = look device c in
    let current = read_used_idx c'.memory s.tx_queue_base s.layout.tx_vring in
    let count = used_delta c'.last_tx_used_idx current in
    let c'' = complete_slots s 0 count c' in
    if count == 0 then (c', false) else (record c'' { last_tx_used_idx = current }, true)

-- A frame that passes the filter: it is answered if a transmit buffer is free now.
unfoldable pub irq_receive_packet : Device → Setup → ReceivedPacket → Echo → Result Turn
unfolding irq_consume find_free_tx_slot echo_packet recycle
irq_receive_packet device s received c =
    let c' = (irq_consume device s (record c { received_rx = u32 (c.received_rx + 1) })).0 in
    elim (find_free_tx_slot c'.tx_slots) [
      | some free ↦ echo_packet s received free c'
      | none ↦ ok (next (recycle s received.desc_id c'))
    ]

unfoldable pub irq_handle_used : Device → Setup → ℕ → Echo → Result Turn
unfolding irq_receive_packet skip_packet
irq_handle_used device s used_slot c =
    elim (read_rx_used_packet c.memory s.rx_queue_base s.layout used_slot s.rx_buffers
      s.rx_buffer_size s.match_ethertype) [
        | some received ↦ irq_receive_packet device s received c
        | none ↦ ok (next (skip_packet s used_slot c))
      ]

-- The loop over the received elements from `i`.
unfoldable pub irq_handle_all : Device → Setup → ℕ → ℕ → Echo → Result Echo
unfolding irq_handle_used
irq_handle_all device s i zero c = ok c
irq_handle_all device s i (suc left) c = do
  turn ← irq_handle_used device s (used_slot_at s.layout.rx_vring c.last_rx_used_idx i) c
  elim turn [ next c' ↦ irq_handle_all device s (i + 1) left c' | stop c' ↦ ok c' ]

-- The state in which a round looks at the received elements, and how many there are.
abbrev pub looked : Device → Setup → Echo → Echo
looked device s c = look device (irq_consume device s c).0

abbrev pub new_rx : Setup → Echo → ℕ
new_rx s c =
    used_delta c.last_rx_used_idx (read_used_idx c.memory s.rx_queue_base s.layout.rx_vring)

-- The body of the loop, with `made_progress`.
unfoldable pub irq_round : Device → Setup → Echo → Result (Echo × Bool)
unfolding irq_consume irq_handle_all read_used_idx used_delta
irq_round device s c = do
  let c' = looked device s c
  let rx_count = new_rx s c'
  after ← irq_handle_all device s 0 rx_count c'
  ok (
    record after { last_rx_used_idx = read_used_idx c'.memory s.rx_queue_base s.layout.rx_vring },
    (irq_consume device s c).1 || not (rx_count == 0),
  )

-- `timeout_until` of the deadline, and `poll_irq_events` for so long.
pub record Waits : Type 0 where
  pub timeout_ms : ℕ → ℕ
  pub poll_irq_events : ℕ → ℕ → Result Bool

-- Whether the loop goes on after a wait.
unfoldable pub wait_irq : Waits → Echo → Result Bool
wait_irq w c =
    let ms = w.timeout_ms c.looks in if ms == 0 then ok false else w.poll_irq_events c.looks ms

abbrev pub after_wait : (Echo → Result Echo) → Echo → Bool → Result Echo
after_wait again c true = again c
after_wait again c false = ok c

abbrev pub after_round : Setup → Waits → (Echo → Result Echo) → Echo × Bool → Result Echo
after_round s w again (c, made_progress) =
    if leb s.max_packets c.echoed_tx
    then ok c
    else if made_progress
    then again c
    else (wait_irq w c >>= after_wait again c)

unfoldable pub run_irq_rounds : ℕ → Device → Setup → Waits → Echo → Result Echo
unfolding irq_round wait_irq
run_irq_rounds zero device s w c = ok c
run_irq_rounds (suc ticks) device s w c =
    let rest =
      irq_round device s c >>= after_round s w (λ c'. run_irq_rounds ticks device s w c') in
    if ltb c.echoed_tx s.max_packets then rest else ok c

-- The wait for the transmissions.
unfoldable pub irq_drain_tx : ℕ → Device → Setup → Waits → Echo → Result Echo
unfolding irq_consume wait_irq
irq_drain_tx zero device s w c = ok c
irq_drain_tx (suc ticks) device s w c =
    let (c', completed) = irq_consume device s c in
    let again = λ (d : Echo). irq_drain_tx ticks device s w d in
    let rest = if completed then again c' else (wait_irq w c' >>= after_wait again c') in
    if ltb c.completed_tx c.echoed_tx then rest else ok c

unfoldable pub run_irq_echo_loop : ℕ → ℕ → Device → Setup → Waits → Memory → Result Echo
unfolding run_irq_rounds irq_drain_tx loop_start
run_irq_echo_loop ticks drain device s w m = do
  c ← run_irq_rounds ticks device s w (loop_start s 0 m)
  irq_drain_tx drain device s w c
