-- ===== src/Echo/Ends.antt =====
-- The echo loop throws nothing and ends, whatever the device writes, where its buffers hold the
-- smallest reply.
use advcpp.Prelude.{
  ℕ, zero, suc, ◌+◌, ◌-◌, ◌≤◌, ◌<◌, max, ◌≡◌, ◌≢◌, refl, Option-cases, false, some, arith,
  Bool-cases, inl, inr, ltb, length-replicate, u32, u32_max, Result, ok, err, le→ltb-false,
}
use advcpp.Memory.{Memory}
use advcpp.Receive.{ReceivedPacket, used_delta, read_used_idx, read_rx_used_packet, used_slot_at}
use advcpp.Packet.{build_tx_reply_from_rx, tx_reply_size_for_rx}
use advcpp.Ring.{publish_tx_packet}
use advcpp.Echo.{
  Setup, Echo, Device, Turn, next, stop, look, consume_tx_completions, wait_free_slot, echo_packet,
  receive_packet, handle_used, handle_all, echo_round, clock_read, goes_on, run_rounds, drain_tx,
  loop_start, run_echo_loop,
}
use advcpp.Echo.Slots.{free}
use advcpp.Echo.Invariant.{IsSound, echo_round-IsSound, drain_tx-IsSound}

-- A transmit buffer holds every reply to what fits a receive buffer, the padded ones included, and
-- its length fits a descriptor.
pub record HoldsReplies (s : Setup) : Type 0 where
  pub smallest : 72 ≤ s.layout.tx_buffer_size
  pub received : s.rx_buffer_size ≤ s.layout.tx_buffer_size
  pub len_fits : s.layout.tx_buffer_size ≤ u32_max

-- That a step throws nothing.
abbrev pub Returns {ℓ} : {A : Type ℓ} → Result A → Type 0
Returns (ok a) = Unit {0}
Returns (err e) = ⊥

pub Returns-ok {ℓ} : {A : Type ℓ} (r : Result A) → Returns r → (a : A) × (r ≡ ok a)
Returns-ok (ok a) h = (a, refl)
Returns-ok (err e) h = absurd h

module _ (device : Device) (s : Setup) (holds : HoldsReplies s) where
  pub received_sizes :
      (m : Memory) (slot : ℕ) {p : ReceivedPacket}
      → read_rx_used_packet m s.rx_queue_base s.layout slot s.rx_buffers s.rx_buffer_size
          s.match_ethertype
        ≡ some p
      → (26 ≤ p.used_len) × (p.used_len ≤ s.rx_buffer_size)
  unfolding read_rx_used_packet
  received_sizes m slot {p} h = ground arith

  pub echo_packet-Returns :
      (p : ReceivedPacket) (slot : ℕ) (c : Echo)
      → 26 ≤ p.used_len
      → p.used_len ≤ s.rx_buffer_size
      → Returns (echo_packet s p slot c)
  unfolding echo_packet publish_tx_packet build_tx_reply_from_rx tx_reply_size_for_rx
  echo_packet-Returns p slot c headers fits =
      let short : ltb p.used_len 26 ≡ false = le→ltb-false p.used_len 26 headers in
      let large : ltb s.layout.tx_buffer_size (12 + max (p.used_len - 12) 60) ≡ false =
        le→ltb-false s.layout.tx_buffer_size _ (omega (arith, holds.smallest, holds.received)) in
      let guard : ltb u32_max (12 + max (p.used_len - 12) 60) ≡ false =
        le→ltb-false u32_max _ (omega (arith, holds.smallest, holds.received, holds.len_fits)) in
      rw (short, large, guard) tt

  handle_used-Returns : (slot : ℕ) (c : Echo) → Returns (handle_used device s slot c)
  unfolding handle_used receive_packet
  handle_used-Returns slot c =
      elim (Option-cases (
        read_rx_used_packet c.memory s.rx_queue_base s.layout slot s.rx_buffers s.rx_buffer_size
          s.match_ethertype)) [
            | inl e ↦ rw (e, handle_used) tt
            | inr (p, e) ↦
                let c1 : Echo = record c { received_rx = u32 (c.received_rx + 1) } in
                let after = wait_free_slot c.ticks device s c1 in
                let sizes = received_sizes c.memory slot e in
                elim (Option-cases after.0) [
                  | inl none_free ↦ rw (e, handle_used, receive_packet, none_free) tt
                  | inr (free_slot, found) ↦
                      rw (e, handle_used, receive_packet, found)
                        (echo_packet-Returns p free_slot after.1 sizes.0 sizes.1)
                ]
          ]

  handle_all-Returns : (i left : ℕ) (c : Echo) → Returns (handle_all device s i left c)
  unfolding handle_all
  handle_all-Returns i zero c = tt
  handle_all-Returns i (suc left) c =
      let slot = used_slot_at s.layout.rx_vring c.last_rx_used_idx i in
      let (turn, e) = Returns-ok (handle_used device s slot c) (handle_used-Returns slot c) in
      rw e
        (elim turn
          as (λ (t : Turn). Returns (elim t as (λ t'. Result Echo) [
            | next c' ↦ handle_all device s (i + 1) left c'
            | stop c' ↦ ok c'
          ])) [ next c' ↦ handle_all-Returns (i + 1) left c' | stop c' ↦ tt ])

  echo_round-Returns : (c : Echo) → Returns (echo_round device s c)
  unfolding echo_round
  echo_round-Returns c =
      let c' = look device (consume_tx_completions device s c) in
      let count =
        used_delta c'.last_rx_used_idx
          (read_used_idx c'.memory s.rx_queue_base s.layout.rx_vring) in
      let (after, e) =
        Returns-ok (handle_all device s 0 count c') (handle_all-Returns 0 count c') in
      rw e tt

  module _ (limit : s.max_packets ≤ u32_max) (timed : s.run_ms ≢ 0) where
    run_rounds-ends :
        (fuel budget : ℕ) (c : Echo)
        → IsSound s budget c
        → budget < fuel
        → (c' : Echo) × (run_rounds fuel device s c ≡ ok (some c'))
          × IsSound s budget c'
          × (goes_on s c' ≡ false)
    unfolding run_rounds
    run_rounds-ends zero budget c v h = absurd (omega arith)
    run_rounds-ends (suc fuel) budget c v h = elim (Bool-cases (goes_on s c)) [
      | inl more ↦
          let room : c.echoed_tx < s.max_packets = ground arith in
          let tick : 0 < c.ticks = ground arith in
          let read : clock_read s c ≡ record c { ticks = c.ticks - 1 } = ground arith in
          let v' : IsSound s (budget - 1) (record c { ticks = c.ticks - 1 }) = omega arith in
          let c1 : Echo = record c { ticks = c.ticks - 1 } in
          let (after, e) = Returns-ok (echo_round device s c1) (echo_round-Returns c1) in
          let sound = echo_round-IsSound device s limit (budget - 1) _ v' room e in
          let (c', rest, sound', over) =
            run_rounds-ends fuel (budget - 1) after sound (omega (arith, v.time)) in
          (c', rw (more, read, e) rest, omega (arith, sound'), over)
      | inr over ↦ (c, rw over refl, v, over)
    ]

    loop_start-IsSound : (ticks : ℕ) (m : Memory) → IsSound s ticks (loop_start s ticks m)
    unfolding loop_start
    loop_start-IsSound ticks m = ground (arith, length-replicate s.tx_buffers free)

    -- The echo loop throws nothing and ends, whatever the device writes to the DMA memory and
    -- however often it reports an element. The time of the run must be limited, and a transmit
    -- buffer must hold the 72 bytes of the smallest reply and what a receive buffer holds. Each
    -- round reads the clock once, so more rounds than readings before the deadline are enough.
    -- In the end no more than `max_packets` packets were sent, and as long as the count of
    -- completions cannot have wrapped, the packets sent are no more than the completions counted
    -- and the slots still in flight together.
    pub run_echo_loop-ends :
        (fuel ticks drain : ℕ) (m : Memory)
        → ticks < fuel
        → (c : Echo) × (run_echo_loop fuel ticks drain device s m ≡ ok (some c)) × IsSound s ticks c
    unfolding run_echo_loop
    run_echo_loop-ends fuel ticks drain m h =
        let (c, ended, sound, over) =
          run_rounds-ends fuel ticks (loop_start s ticks m) (loop_start-IsSound ticks m) h in
        (
          drain_tx drain device s c,
          rw ended refl,
          drain_tx-IsSound device s limit ticks drain c sound,
        )
