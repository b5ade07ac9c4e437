-- ===== src/Echo/Invariant.antt =====
-- What every step of the echo loop keeps, whatever the device writes.
use advcpp.Prelude.{
  ℕ, zero, suc, ◌+◌, ◌*◌, ◌≤◌, ◌<◌, ◌≡◌, refl, sym, ◌∙◌, Option-cases, false, Option, length, arith,
  Bool-cases, inl, inr, ltb, length-set, u32, u32_max, Result, ok, >>=-eq-ok,
}
use advcpp.Receive.{
  ReceivedPacket, used_delta, read_used_idx, read_rx_used_packet, read_used_elem, used_slot_at,
}
use advcpp.Echo.{
  Setup, Echo, Device, Turn, next, stop, look, complete_slot, complete_slots,
  consume_tx_completions, find_free_tx_slot, wait_free_slot, recycle, echo_packet, receive_packet,
  skip_packet, handle_used, handle_all, echo_round, drain_tx,
}
use advcpp.Echo.Slots.{
  busy, busy-set-taken, busy-set-free, is_in_flight, taken, free, find_free_tx_slot-IsFirstFree,
}

-- The pool keeps its size, and no more is sent than was asked for. A look at the used ring counts
-- at most 65535 completions. As long as the 32-bit counter of them cannot have wrapped, no more was
-- sent than completions were counted and slots are in flight together. At most `budget` readings of
-- the clock are left.
pub record IsSound (s : Setup) (budget : ℕ) (c : Echo) : Type 0 where
  pub pool : length c.tx_slots ≡ s.tx_buffers
  pub sent : c.echoed_tx ≤ s.max_packets
  pub completions : c.completed_tx ≤ 65535 * c.looks
  pub accounted : 65535 * c.looks ≤ u32_max → c.echoed_tx ≤ c.completed_tx + busy c.tx_slots
  pub time : c.ticks ≤ budget

-- As it stands before the next `left` elements of this look are counted.
record IsCounting (s : Setup) (budget left : ℕ) (c : Echo) : Type 0 where
  pool : length c.tx_slots ≡ s.tx_buffers
  sent : c.echoed_tx ≤ s.max_packets
  completions : c.completed_tx + left ≤ 65535 * c.looks
  accounted : 65535 * c.looks ≤ u32_max → c.echoed_tx ≤ c.completed_tx + busy c.tx_slots
  time : c.ticks ≤ budget

-- What one received element leads to.
abbrev pub IsTurn : Setup → ℕ → Turn → Type 0
IsTurn s budget (next c) = IsSound s budget c × (c.echoed_tx < s.max_packets)
IsTurn s budget (stop c) = IsSound s budget c

module _ (device : Device) (s : Setup) (limit : s.max_packets ≤ u32_max) (budget : ℕ) where
  complete_slot-IsCounting :
      (slot left : ℕ) (c : Echo)
      → IsCounting s budget (suc left) c
      → IsCounting s budget left (complete_slot s slot c)
  unfolding complete_slot
  complete_slot-IsCounting slot left c v =
      let id = (read_used_elem c.memory s.tx_queue_base s.layout.tx_vring slot).id in
      ground (arith, busy-set-free c.tx_slots id, length-set c.tx_slots id free)

  complete_slots-IsCounting :
      (i left : ℕ) (c : Echo)
      → IsCounting s budget left c
      → IsSound s budget (complete_slots s i left c)
  unfolding complete_slots
  complete_slots-IsCounting i zero c v = omega arith
  complete_slots-IsCounting i (suc left) c v =
      complete_slots-IsCounting (i + 1) left _
        (complete_slot-IsCounting (used_slot_at s.layout.tx_vring c.last_tx_used_idx i) left c v)

  pub consume-IsSound :
      (c : Echo) → IsSound s budget c → IsSound s budget (consume_tx_completions device s c)
  unfolding consume_tx_completions used_delta
  consume-IsSound c v =
      let c' = look device c in
      let current = read_used_idx c'.memory s.tx_queue_base s.layout.tx_vring in
      let count = used_delta c'.last_tx_used_idx current in
      let before : IsCounting s budget count c' = omega arith in
      let after : IsSound s budget (complete_slots s 0 count c') =
        complete_slots-IsCounting 0 count c' before in
      let same : IsSound s budget c' = omega arith in ground (arith, after)

  pub complete_slots-echoed_tx :
      (i left : ℕ) (c : Echo) → (complete_slots s i left c).echoed_tx ≡ c.echoed_tx
  unfolding complete_slots complete_slot
  complete_slots-echoed_tx i zero c = refl
  complete_slots-echoed_tx i (suc left) c = complete_slots-echoed_tx (i + 1) left _ ∙ ground arith

  pub consume-echoed_tx : (c : Echo) → (consume_tx_completions device s c).echoed_tx ≡ c.echoed_tx
  unfolding consume_tx_completions
  consume-echoed_tx c =
      let c' = look device c in
      let count =
        used_delta c'.last_tx_used_idx
          (read_used_idx c'.memory s.tx_queue_base s.layout.tx_vring) in
      ground (arith, complete_slots-echoed_tx 0 count c')

  -- What a search for a slot returns.
  record IsWaited (c : Echo) (slot : Option ℕ) (c' : Echo) : Type 0 where
    pub sound : IsSound s budget c'
    pub echoed : c'.echoed_tx ≡ c.echoed_tx
    pub found : slot ≡ find_free_tx_slot c'.tx_slots

  wait_free_slot-IsWaited :
      (ticks : ℕ) (c : Echo)
      → ticks ≤ budget
      → IsSound s budget c
      → IsWaited c (wait_free_slot ticks device s c).0 (wait_free_slot ticks device s c).1
  unfolding wait_free_slot
  wait_free_slot-IsWaited zero c t v = record { sound = omega arith; echoed = refl; found = refl }
  wait_free_slot-IsWaited (suc ticks) c t v = elim (Option-cases (find_free_tx_slot c.tx_slots)) [
    | inl e ↦
        let c' = consume_tx_completions device s (record c { ticks = ticks }) in
        let r = wait_free_slot-IsWaited ticks c' (omega arith) (consume-IsSound _ (omega arith)) in
        rw (e, wait_free_slot)
          (record {
            sound = r.sound;
            echoed = r.echoed ∙ consume-echoed_tx (record c { ticks = ticks });
            found = r.found;
          })
    | inr (slot, e) ↦ rw (e, wait_free_slot) (record { sound = v; echoed = refl; found = sym e })
  ]

  recycle-IsSound :
      (desc_id : ℕ) (c : Echo) → IsSound s budget c → IsSound s budget (recycle s desc_id c)
  unfolding recycle
  recycle-IsSound desc_id c v = ground arith

  echo_packet-IsTurn :
      (received : ReceivedPacket) (slot : ℕ) (c : Echo) {turn : Turn}
      → IsSound s budget c
      → c.echoed_tx < s.max_packets
      → is_in_flight c.tx_slots slot ≡ false
      → echo_packet s received slot c ≡ ok turn
      → IsTurn s budget turn
  unfolding echo_packet recycle
  echo_packet-IsTurn received slot c {turn} v room idle h =
      ground (arith, busy-set-taken c.tx_slots slot idle, length-set c.tx_slots slot taken)

  receive_packet-IsTurn :
      (received : ReceivedPacket) (c : Echo) {turn : Turn}
      → IsSound s budget c
      → c.echoed_tx < s.max_packets
      → receive_packet device s received c ≡ ok turn
      → IsTurn s budget turn
  unfolding receive_packet
  receive_packet-IsTurn received c {turn} v room h =
      let c1 : Echo = record c { received_rx = u32 (c.received_rx + 1) } in
      let after = wait_free_slot c.ticks device s c1 in
      let w = wait_free_slot-IsWaited c.ticks c1 v.time (omega arith) in
      elim (Option-cases after.0) [
        | inl none_free ↦
            let stopped : IsSound s budget (recycle s received.desc_id after.1) =
              recycle-IsSound received.desc_id after.1 w.sound in
            ground (arith, stopped, none_free)
        | inr (slot, found) ↦
            let first = find_free_tx_slot-IsFirstFree after.1.tx_slots (sym w.found ∙ found) in
            echo_packet-IsTurn received slot after.1 w.sound (omega (arith, w.echoed)) first.is_free
              (ground arith)
      ]

  skip_packet-IsSound :
      (used_slot : ℕ) (c : Echo) → IsSound s budget c → IsSound s budget (skip_packet s used_slot c)
  unfolding skip_packet recycle
  skip_packet-IsSound used_slot c v = ground arith

  skip_packet-echoed_tx :
      (used_slot : ℕ) (c : Echo) → (skip_packet s used_slot c).echoed_tx ≡ c.echoed_tx
  unfolding skip_packet recycle
  skip_packet-echoed_tx used_slot c = ground arith

  handle_used-IsTurn :
      (used_slot : ℕ) (c : Echo) {turn : Turn}
      → IsSound s budget c
      → c.echoed_tx < s.max_packets
      → handle_used device s used_slot c ≡ ok turn
      → IsTurn s budget turn
  unfolding handle_used
  handle_used-IsTurn used_slot c {turn} v room h =
      elim (Option-cases (
        read_rx_used_packet c.memory s.rx_queue_base s.layout used_slot s.rx_buffers
          s.rx_buffer_size s.match_ethertype)) [
            | inl e ↦
                ground
                  (arith, e, skip_packet-IsSound used_slot c v, skip_packet-echoed_tx used_slot c)
            | inr (received, e) ↦ receive_packet-IsTurn received c v room (ground (arith, e))
          ]

  handle_all-IsSound :
      (i left : ℕ) (c : Echo) {after : Echo}
      → IsSound s budget c
      → c.echoed_tx < s.max_packets
      → handle_all device s i left c ≡ ok after
      → IsSound s budget after
  unfolding handle_all
  handle_all-IsSound i zero c v room h = ground arith
  handle_all-IsSound i (suc left) c {after} v room h =
      let (turn, handled, rest) =
        >>=-eq-ok (handle_used device s (used_slot_at s.layout.rx_vring c.last_rx_used_idx i) c) _
          h in
      let handled_turn =
        handle_used-IsTurn (used_slot_at s.layout.rx_vring c.last_rx_used_idx i) c v room handled in
      elim turn
          as (λ (t : Turn).
            IsTurn s budget t
            → elim t as (λ t'. Result Echo) [
              | next c' ↦ handle_all device s (i + 1) left c'
              | stop c' ↦ ok c'
            ]
              ≡ ok after
            → IsSound s budget after) [
              | next c' ↦ λ t e. handle_all-IsSound (i + 1) left c' t.0 t.1 e
              | stop c' ↦ λ t e. ground arith
            ]
        handled_turn rest

  pub echo_round-IsSound :
      (c : Echo) {after : Echo}
      → IsSound s budget c
      → c.echoed_tx < s.max_packets
      → echo_round device s c ≡ ok after
      → IsSound s budget after
  unfolding echo_round
  echo_round-IsSound c {after} v room h =
      let consumed = consume_tx_completions device s c in
      let c' = look device consumed in
      let looked : IsSound s budget consumed = consume-IsSound c v in
      let v' : IsSound s budget c' = omega (arith, looked) in
      let (ended, handled, e) =
        >>=-eq-ok
          (handle_all device s 0
            (used_delta c'.last_rx_used_idx
              (read_used_idx c'.memory s.rx_queue_base s.layout.rx_vring))
            c')
          _ h in
      let sound : IsSound s budget ended =
        handle_all-IsSound 0 _ c' v' (omega (arith, consume-echoed_tx c)) handled in
      ground (arith, sound)

  pub drain_tx-IsSound :
      (ticks : ℕ) (c : Echo) → IsSound s budget c → IsSound s budget (drain_tx ticks device s c)
  unfolding drain_tx
  drain_tx-IsSound zero c v = v
  drain_tx-IsSound (suc ticks) c v =
      let rest = drain_tx-IsSound ticks (consume_tx_completions device s c) (consume-IsSound c v) in
      elim (Bool-cases (ltb c.completed_tx c.echoed_tx)) [ inl e ↦ rw e rest | inr e ↦ rw e v ]
