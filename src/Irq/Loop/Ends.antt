-- ===== src/Irq/Loop/Ends.antt =====
-- The loop that waits for interrupts throws nothing and sends no more than it is told to.
use advcpp.Prelude.{
  ℕ, zero, suc, ◌+◌, ◌≤◌, ◌<◌, ◌≡◌, refl, inl, inr, Bool, true, false, ◌||◌, not, ltb, ltb→lt, leb,
  ◌>>=◌, if◌then◌else◌, ◌==◌, u32, u32_max, Result, ok, Bool-cases, Option-cases, arith,
}
use advcpp.Memory.{Memory}
use advcpp.Receive.{ReceivedPacket, read_used_idx, used_delta, read_rx_used_packet, used_slot_at}
use advcpp.Echo.{
  Setup, Echo, Device, Turn, next, stop, look, find_free_tx_slot, recycle, echo_packet, skip_packet,
  loop_start,
}
use advcpp.Echo.Invariant.{complete_slots-echoed_tx}
use advcpp.Echo.Ends.{HoldsReplies, Returns-ok, received_sizes, echo_packet-Returns}
use advcpp.Irq.Loop.{
  irq_consume, irq_receive_packet, irq_handle_used, irq_handle_all, looked, new_rx, irq_round,
  Waits, wait_irq, after_wait, after_round, run_irq_rounds, irq_drain_tx, run_irq_echo_loop,
}

abbrev IsBelow : Setup → Turn → Type 0
IsBelow s (next c) = c.echoed_tx < s.max_packets
IsBelow s (stop c) = c.echoed_tx ≤ s.max_packets

-- It throws nothing, and what it returns has the property.
abbrev pub Gives {ℓ} : {A : Type ℓ} → Result A → (A → Type 0) → Type ℓ
Gives {A = A} r P = (a : A) × (r ≡ ok a) × P a

module _ (device : Device) (s : Setup) (holds : HoldsReplies s)
    (limit : s.max_packets ≤ u32_max) where
  irq_consume-echoed_tx : (c : Echo) → (irq_consume device s c).0.echoed_tx ≡ c.echoed_tx
  unfolding irq_consume
  irq_consume-echoed_tx c =
      let c' = look device c in
      let count =
        used_delta c'.last_tx_used_idx
          (read_used_idx c'.memory s.tx_queue_base s.layout.tx_vring) in
      let same = complete_slots-echoed_tx device s limit 0 0 count c' in ground (arith, same)

  echo_packet-IsBelow :
      (p : ReceivedPacket) (slot : ℕ) (c : Echo) (t : Turn)
      → c.echoed_tx < s.max_packets
      → echo_packet s p slot c ≡ ok t
      → IsBelow s t
  unfolding echo_packet recycle
  echo_packet-IsBelow p slot c (next d) room run = ground arith
  echo_packet-IsBelow p slot c (stop d) room run = ground arith

  skip_packet-below :
      (slot : ℕ) (c : Echo)
      → c.echoed_tx < s.max_packets
      → (skip_packet s slot c).echoed_tx < s.max_packets
  unfolding skip_packet recycle
  skip_packet-below slot c room = ground arith

  echo_packet-Gives :
      (p : ReceivedPacket) (slot : ℕ) (c : Echo)
      → 26 ≤ p.used_len
      → p.used_len ≤ s.rx_buffer_size
      → c.echoed_tx < s.max_packets
      → Gives (echo_packet s p slot c) (IsBelow s)
  echo_packet-Gives p slot c headers fits room =
      let (t, run) =
        Returns-ok (echo_packet s p slot c)
          (echo_packet-Returns device s holds p slot c headers fits) in
      (t, run, echo_packet-IsBelow p slot c t room run)

  irq_handle_used-Gives :
      (slot : ℕ) (c : Echo)
      → c.echoed_tx < s.max_packets
      → Gives (irq_handle_used device s slot c) (IsBelow s)
  unfolding irq_handle_used irq_receive_packet recycle skip_packet
  irq_handle_used-Gives slot c room =
      elim (Option-cases (
        read_rx_used_packet c.memory s.rx_queue_base s.layout slot s.rx_buffers s.rx_buffer_size
          s.match_ethertype)) [
            | inl e ↦ (
              next (skip_packet s slot c),
              rw (e, irq_handle_used) refl,
              skip_packet-below slot c room,
            )
            | inr (p, e) ↦
                let c1 : Echo = record c { received_rx = u32 (c.received_rx + 1) } in
                let c2 = (irq_consume device s c1).0 in
                let same = irq_consume-echoed_tx c1 in
                let room2 : c2.echoed_tx < s.max_packets = omega (arith, same) in
                let sizes = received_sizes device s holds c.memory slot e in
                elim (Option-cases (find_free_tx_slot c2.tx_slots)) [
                  | inl none_free ↦ (
                    next (recycle s p.desc_id c2),
                    rw (e, irq_handle_used, irq_receive_packet, none_free) refl,
                    room2,
                  )
                  | inr (free, found) ↦
                      let (t, run, below) = echo_packet-Gives p free c2 sizes.0 sizes.1 room2 in
                      (t, rw (e, irq_handle_used, irq_receive_packet, found) run, below)
                ]
          ]

  abbrev pub IsSent : Echo → Type 0
  IsSent c = c.echoed_tx ≤ s.max_packets

  irq_handle_all-Gives :
      (i left : ℕ) (c : Echo)
      → c.echoed_tx < s.max_packets
      → Gives (irq_handle_all device s i left c) IsSent
  unfolding irq_handle_all
  irq_handle_all-Gives i zero c room = (c, refl, omega arith)
  irq_handle_all-Gives i (suc left) c room =
      let slot = used_slot_at s.layout.rx_vring c.last_rx_used_idx i in
      let (t, run, below) = irq_handle_used-Gives slot c room in
      rw run (
        elim t
            as (λ x.
              IsBelow s x
              → Gives
                  (elim x as (λ y. Result Echo) [
                    | next d ↦ irq_handle_all device s (i + 1) left d
                    | stop d ↦ ok d
                  ])
                  IsSent) [
                    | next d ↦ λ h. irq_handle_all-Gives (i + 1) left d h
                    | stop d ↦ λ h. (d, refl, h)
                  ]
          below)

  pub irq_round-Gives :
      (c : Echo) → c.echoed_tx < s.max_packets → Gives (irq_round device s c) (λ r. IsSent r.0)
  unfolding irq_round
  irq_round-Gives c room =
      let d = looked device s c in
      let same = irq_consume-echoed_tx c in
      let (after, run, sent) = irq_handle_all-Gives 0 (new_rx s d) d (omega (arith, same)) in
      (
        (
          record after {
            last_rx_used_idx = read_used_idx d.memory s.rx_queue_base s.layout.rx_vring;
          },
          (irq_consume device s c).1 || not (new_rx s d == 0),
        ),
        rw run refl,
        sent,
      )

  -- No wait throws.
  module _ (w : Waits) (waits : (n ms : ℕ) → (b : Bool) × (w.poll_irq_events n ms ≡ ok b)) where
    wait_irq-ok : (c : Echo) → (b : Bool) × (wait_irq w c ≡ ok b)
    unfolding wait_irq
    wait_irq-ok c = elim (Bool-cases (w.timeout_ms c.looks == 0)) [
      | inl over ↦ (false, rw over refl)
      | inr left ↦ let (b, run) = waits c.looks (w.timeout_ms c.looks) in (b, rw left run)
    ]

    after_wait-Gives :
        (again : Echo → Result Echo) (c : Echo)
        → IsSent c
        → Gives (again c) IsSent
        → Gives (wait_irq w c >>= after_wait again c) IsSent
    after_wait-Gives again c sent more =
        let (b, run) = wait_irq-ok c in
        rw run (elim b as (λ x. Gives (after_wait again c x) IsSent) [
          | true ↦ more
          | false ↦ (c, refl, sent)
        ])

    after_round-Gives :
        (again : Echo → Result Echo) (c : Echo) (made_progress : Bool)
        → IsSent c
        → Gives (again c) IsSent
        → Gives (after_round s w again (c, made_progress)) IsSent
    after_round-Gives again c made_progress sent more =
        let waited = after_wait-Gives again c sent more in
        elim (Bool-cases (leb s.max_packets c.echoed_tx)) [
          | inl enough ↦ (c, rw enough refl, sent)
          | inr few ↦
              rw few
                (elim made_progress
                  as (λ x.
                    Gives (if x then again c else (wait_irq w c >>= after_wait again c)) IsSent) [
                      | true ↦ more
                      | false ↦ waited
                    ])
        ]

    run_irq_rounds-Gives :
        (ticks : ℕ) (c : Echo) → IsSent c → Gives (run_irq_rounds ticks device s w c) IsSent
    unfolding run_irq_rounds
    run_irq_rounds-Gives zero c sent = (c, refl, sent)
    run_irq_rounds-Gives (suc ticks) c sent = elim (Bool-cases (ltb c.echoed_tx s.max_packets)) [
      | inr enough ↦ (c, rw enough refl, sent)
      | inl room ↦
          let (r, run, sent') = irq_round-Gives c (ltb→lt c.echoed_tx s.max_packets room) in
          rw (room, run)
            (after_round-Gives (λ d. run_irq_rounds ticks device s w d) r.0 r.1 sent'
              (run_irq_rounds-Gives ticks r.0 sent'))
    ]

    irq_drain_tx-Gives :
        (ticks : ℕ) (c : Echo) → IsSent c → Gives (irq_drain_tx ticks device s w c) IsSent
    unfolding irq_drain_tx
    irq_drain_tx-Gives zero c sent = (c, refl, sent)
    irq_drain_tx-Gives (suc ticks) c sent =
        let d = (irq_consume device s c).0 in
        let sent' : IsSent d = omega (arith, irq_consume-echoed_tx c) in
        let more = irq_drain_tx-Gives ticks d sent' in
        let again = λ (e : Echo). irq_drain_tx ticks device s w e in
        let waited = after_wait-Gives again d sent' more in
        elim (Bool-cases (ltb c.completed_tx c.echoed_tx)) [
          | inr over ↦ (c, rw over refl, sent)
          | inl missing ↦
              rw missing
                (elim (irq_consume device s c).1
                  as (λ x.
                    Gives (if x then again d else (wait_irq w d >>= after_wait again d)) IsSent) [
                      | true ↦ more
                      | false ↦ waited
                    ])
        ]

    -- The loop that waits for interrupts, and the wait for its transmissions, throw nothing, whatever
    -- the device writes and however many readings of the clocks there are, where a transmit buffer
    -- holds the smallest reply and what a receive buffer holds, no poll of the eventfds fails,
    -- and `max_packets` has 32 bits; no more than `max_packets` packets were sent.
    pub run_irq_echo_loop-ends :
        (ticks drain : ℕ) (m : Memory)
        → (c : Echo) × (run_irq_echo_loop ticks drain device s w m ≡ ok c)
          × (c.echoed_tx ≤ s.max_packets)
    unfolding run_irq_echo_loop loop_start
    run_irq_echo_loop-ends ticks drain m =
        let (c, run, sent) = run_irq_rounds-Gives ticks (loop_start s 0 m) (omega arith) in
        let (d, drained, sent') = irq_drain_tx-Gives drain c sent in (d, rw run drained, sent')
